-- ===== src/Limiter/Speed.antt =====
-- internal/limiter/speedtracker.go. A `rate.Limiter` is the rate and the burst that it is set to;
-- the pointer that connections share is the entry of `buckets`. The users are those of the
-- limiter that the tracker reads. Rates are natural numbers: an int holds them for every speed
-- limit below 9 * 10 ^ 12 Mbit/s.
use cpanelde.Prelude.{
  ℕ, ◌*◌, ◌/◌, Bool, true, false, not, ◌&&◌, [], ◌∷◌, length, if◌then◌else◌, Text, Option, none,
  some, nat_eq, text_eq, Map, lookup, insert, erase, has_key, keep_keys, ltb, is_empty,
}
use cpanelde.Prelude.Int.{ℤ, pos_part}
use cpanelde.Model.Types.{UserSpec}
use cpanelde.Limiter.Users.{is_positive}

pub record Bucket : Type 0 where
  pub limit : ℕ
  pub burst : ℕ

pub record SpeedTracker : Type 0 where
  pub buckets : Map ℕ Bucket
  pub uuid_map : Map Text ℕ
  pub has_limits : Bool

unfoldable pub new_speed_tracker : SpeedTracker
new_speed_tracker = record { buckets = []; uuid_map = []; has_limits = false }

abbrev pub bytes_per_sec : ℤ → ℕ
bytes_per_sec speed = pos_part speed * 1_000_000 / 8

abbrev pub min_burst : ℕ
min_burst = 64 * 1024

abbrev pub at_least_min : ℕ → ℕ
at_least_min burst = if ltb burst min_burst then min_burst else burst

-- The rate that `UpdateBuckets` sets.
unfoldable pub refreshed : ℤ → Bucket
refreshed speed = record { limit = bytes_per_sec speed; burst = at_least_min (bytes_per_sec speed) }

-- The rate that `GetLimiter` creates, with its cap at four seconds of traffic.
unfoldable pub created : ℤ → Bucket
created speed =
    let rate = bytes_per_sec speed in
    let burst = at_least_min rate in
    let cap4s = rate * 4 in
    record { limit = rate; burst = if ltb min_burst cap4s && ltb cap4s burst then cap4s else burst }

-- One round of the loop over the users: an existing bucket is set anew, or dropped.
unfoldable pub sync_user : UserSpec → Map ℕ Bucket → Map ℕ Bucket
sync_user u buckets = elim (lookup u.id buckets) [
  | none ↦ buckets
  | some b ↦
      if is_positive u.speed_limit
      then insert u.id (refreshed u.speed_limit) buckets
      else erase u.id buckets
]

unfoldable pub sync_users : Map ℕ UserSpec → Map ℕ Bucket → Map ℕ Bucket
unfolding sync_user
sync_users [] buckets = buckets
sync_users ((id, u) ∷ users) buckets = sync_users users (sync_user u buckets)

unfoldable pub active_ids : Map ℕ UserSpec → Map ℕ (Unit {0}) → Map ℕ (Unit {0})
active_ids [] active = active
active_ids ((id, u) ∷ users) active = active_ids users (insert u.id tt active)

unfoldable pub map_uuids : Map ℕ UserSpec → Map Text ℕ → Map Text ℕ
map_uuids [] uuids = uuids
map_uuids ((id, u) ∷ users) uuids =
    map_uuids users (if not (is_empty u.uuid) then insert u.uuid u.id uuids else uuids)

unfoldable pub update_buckets : SpeedTracker → Map ℕ UserSpec → SpeedTracker
update_buckets t users =
    let buckets = keep_keys (λ id. has_key id (active_ids users [])) (sync_users users t.buckets) in
    record { buckets = buckets; uuid_map = map_uuids users []; has_limits = ltb 0 (length buckets) }

-- The part of `GetLimiter` under the write lock, where another caller may have come first.
unfoldable pub install : SpeedTracker → ℕ → Bucket → SpeedTracker × Bucket
install t uid lim = elim (lookup uid t.buckets) [
  | some existing ↦ (t, existing)
  | none ↦ (record t { buckets = insert uid lim t.buckets; has_limits = true }, lim)
]

abbrev pub wants_limit : Option UserSpec → Option ℤ
wants_limit none = none
wants_limit (some u) = if is_positive u.speed_limit then some u.speed_limit else none

-- `none` is the nil limiter: no limit applies.
unfoldable pub get_limiter : SpeedTracker → Map ℕ UserSpec → Text → SpeedTracker × Option Bucket
get_limiter t users user = elim (lookup user t.uuid_map) [
  | none ↦ (t, none)
  | some uid ↦ elim (lookup uid t.buckets) [
    | some lim ↦ (t, some lim)
    | none ↦ elim (wants_limit (lookup uid users)) [
      | none ↦ (t, none)
      | some speed ↦ let (t', lim) = install t uid (created speed) in (t', some lim)
    ]
  ]
]

unfoldable pub limited_user_count : SpeedTracker → ℕ
limited_user_count t = length t.buckets
