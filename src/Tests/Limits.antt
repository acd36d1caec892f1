-- ===== src/Tests/Limits.antt =====
-- internal/limiter on a table of two users.
use cpanelde.Prelude.{
  ℕ, ◌≡◌, refl, arith, true, [], ◌∷◌, codes, some, nat_eq, text_eq, Map, lookup, UniqueKeys,
}
use cpanelde.Prelude.Int.{pos}
use cpanelde.Model.Types.{UserSpec}
use cpanelde.Model.Users.{find_last}
use cpanelde.Limiter.Users.{new_limiter, update_users, Filed, get_device_limit_by_uuid}
use cpanelde.Limiter.Devices.{get_device_limit_complete}
use cpanelde.Limiter.Speed.{SpeedTracker, refreshed, update_buckets, get_limiter}
use cpanelde.Limiter.Rates.{
  resync, lookup-update_buckets, update_buckets-IsSynced, entitled, get_limiter-entitled,
}

abbrev fast : UserSpec
fast = record {
  id = 1;
  uuid = codes "a";
  speed_limit = pos 10;
  device_limit = pos 2;
  route_scope = [];
}

abbrev free : UserSpec
free = record {
  id = 2;
  uuid = codes "b";
  speed_limit = pos 0;
  device_limit = pos 0;
  route_scope = [];
}

abbrev users : Map ℕ UserSpec
users = (1, fast) ∷ (2, free) ∷ []

users-UniqueKeys : UniqueKeys users
unfolding lookup
users-UniqueKeys = (refl, (refl, tt))

users-Filed : Filed users
users-Filed = (refl, (refl, tt))

abbrev old_buckets : SpeedTracker
old_buckets = record {
  buckets = (1, refreshed (pos 5)) ∷ (2, refreshed (pos 7)) ∷ (3, refreshed (pos 9)) ∷ [];
  uuid_map = [];
  has_limits = true;
}

only_fast :
    (n : ℕ) (v : UserSpec)
    → find_last n (fast ∷ free ∷ []) ≡ some v
    → v.uuid ≡ codes "a"
    → v.device_limit ≡ pos 2
only_fast n v e same = ground arith

get_device_limit_complete_example :
    get_device_limit_by_uuid (update_users new_limiter (fast ∷ free ∷ [])).0 (codes "a")
    ≡ some (pos 2)
get_device_limit_complete_example =
    get_device_limit_complete new_limiter (fast ∷ free ∷ []) 1 fast refl refl only_fast

lookup-update_buckets_example :
    lookup 1 (update_buckets old_buckets users).buckets
    ≡ resync (lookup 1 users) (lookup 1 old_buckets.buckets)
lookup-update_buckets_example =
    lookup-update_buckets old_buckets users 1 users-UniqueKeys users-Filed

get_limiter-entitled_example :
    (get_limiter (update_buckets old_buckets users) users (codes "a")).1
    ≡ entitled (update_buckets old_buckets users) users (codes "a")
get_limiter-entitled_example =
    get_limiter-entitled (update_buckets old_buckets users) users
      (update_buckets-IsSynced old_buckets users users-UniqueKeys users-Filed) (codes "a")
