-- ===== src/Limiter/Devices.antt =====
-- The index from UUIDs to device limits of internal/limiter/limiter.go.
use cpanelde.Prelude.{
  ℕ, ◌≡◌, refl, ap, sym, ◌∙◌, true, false, ◌&&◌, List, [], ◌∷◌, arith, if◌then◌else◌, Text, Option,
  none, some, ◌==◌, nat_eq, text_eq, Map, lookup, is_some, lookup-insert, UniqueKeys, eq_of_beq,
  Bool-cases, Option-cases, inl, inr, ==_refl,
}
use cpanelde.Prelude.Int.{ℤ}
use cpanelde.Model.Types.{UserSpec}
use cpanelde.Model.Users.{find_last, or_else}
use cpanelde.Limiter.Users.{
  Limiter, is_positive, index_limits, users_by_id, update_users, get_device_limit_by_uuid,
  lookup-users_by_id, users_by_id-UniqueKeys,
}

-- The last positive limit that a table has for a UUID.
abbrev last_limit : Text → Map ℕ UserSpec → Option ℤ
last_limit uuid [] = none
last_limit uuid ((id, u) ∷ m) = elim (last_limit uuid m) [
  | some n ↦ some n
  | none ↦ if is_positive u.device_limit && uuid == u.uuid then some u.device_limit else none
]

lookup-index_limits :
    (uuid : Text) (m : Map ℕ UserSpec) (index : Map Text ℤ)
    → lookup uuid (index_limits m index) ≡ or_else (last_limit uuid m) (lookup uuid index)
unfolding index_limits
lookup-index_limits uuid [] index = refl
lookup-index_limits uuid ((id, u) ∷ m) index = elim (Bool-cases (is_positive u.device_limit)) [
  | inl p ↦
      rw (p, index_limits)
        (lookup-index_limits uuid m _
          ∙ ground (arith, p, lookup-insert uuid u.uuid u.device_limit index))
  | inr p ↦ rw (p, index_limits) (lookup-index_limits uuid m index ∙ ground (arith, p))
]

-- A user of the table with this UUID and this positive limit.
record Limits (uuid : Text) (n : ℤ) (m : Map ℕ UserSpec) : Type 0 where
  id : ℕ
  user : UserSpec
  filed : lookup id m ≡ some user
  same_uuid : user.uuid ≡ uuid
  same_limit : user.device_limit ≡ n
  positive : is_positive n ≡ true

fresh_ne :
    (id n : ℕ) (m : Map ℕ UserSpec) (u : UserSpec)
    → lookup id m ≡ some u
    → lookup n m ≡ none
    → (id == n) ≡ false
fresh_ne id n m u e f = elim (Bool-cases (id == n)) [
  | inl same ↦ cc (e, f, eq_of_beq id n same)
  | inr other ↦ other
]

last_limit-Limits :
    (uuid : Text) (n : ℤ) (m : Map ℕ UserSpec)
    → UniqueKeys m
    → last_limit uuid m ≡ some n
    → Limits uuid n m
unfolding lookup
last_limit-Limits uuid n [] k e = cc
last_limit-Limits uuid n ((id, u) ∷ m) k e = elim (Option-cases (last_limit uuid m)) [
  | inl none_later ↦ record {
    id = id;
    user = u;
    filed = ground arith;
    same_uuid = sym (eq_of_beq uuid u.uuid (ground arith));
    same_limit = ground arith;
    positive = ground arith;
  }
  | inr (l, later) ↦
      let found = last_limit-Limits uuid n m k.1 (ground arith) in
      record {
        id = found.id;
        user = found.user;
        filed = ground (arith, found.filed, fresh_ne found.id id m found.user found.filed k.0);
        same_uuid = found.same_uuid;
        same_limit = found.same_limit;
        positive = found.positive;
      }
]

last_limit_exists :
    (id : ℕ) (u : UserSpec) (m : Map ℕ UserSpec)
    → lookup id m ≡ some u
    → is_positive u.device_limit ≡ true
    → is_some (last_limit u.uuid m) ≡ true
unfolding lookup
last_limit_exists id u [] e p = cc
last_limit_exists id u ((n, v) ∷ m) e p = elim (Bool-cases (id == n)) [
  | inl same ↦ ground (arith, same, ==_refl u.uuid)
  | inr other ↦ ground (arith, other, last_limit_exists id u m)
]

device_limit-last_limit :
    (l : Limiter) (us : List UserSpec) (uuid : Text)
    → get_device_limit_by_uuid (update_users l us).0 uuid ≡ last_limit uuid (users_by_id us [])
unfolding get_device_limit_by_uuid update_users lookup
device_limit-last_limit l us uuid = lookup-index_limits uuid (users_by_id us []) [] ∙ ground (arith)

-- A limit that the index reports after an update is positive, and is the device limit of a user
-- of the list who has that UUID.
pub get_device_limit_sound :
    (l : Limiter) (us : List UserSpec) (uuid : Text) (n : ℤ)
    → get_device_limit_by_uuid (update_users l us).0 uuid ≡ some n
    → (id : ℕ) × (u : UserSpec) × (find_last id us ≡ some u)
      × (u.uuid ≡ uuid)
      × (u.device_limit ≡ n)
      × (is_positive n ≡ true)
unfolding lookup
get_device_limit_sound l us uuid n e =
    let found =
      last_limit-Limits uuid n (users_by_id us []) (users_by_id-UniqueKeys us [] tt)
        (sym (device_limit-last_limit l us uuid) ∙ e) in
    (
      found.id,
      found.user,
      ground (arith, lookup-users_by_id found.id us [], found.filed),
      found.same_uuid,
      found.same_limit,
      found.positive,
    )

-- Every user of the list with a positive device limit is held to it, unless another user of the
-- list has the same UUID and a different limit.
pub get_device_limit_complete :
    (l : Limiter) (us : List UserSpec) (id : ℕ) (u : UserSpec)
    → find_last id us ≡ some u
    → is_positive u.device_limit ≡ true
    → ((n : ℕ) (v : UserSpec)
        → find_last n us ≡ some v
        → v.uuid ≡ u.uuid
        → v.device_limit ≡ u.device_limit)
    → get_device_limit_by_uuid (update_users l us).0 u.uuid ≡ some u.device_limit
unfolding lookup
get_device_limit_complete l us id u e p agree = elim (Option-cases (last_limit u.uuid table)) [
  | inl missing ↦ cc (ap is_some missing, last_limit_exists id u table filed p)
  | inr (n, present) ↦
      let found = last_limit-Limits u.uuid n table (users_by_id-UniqueKeys us [] tt) present in
      device_limit-last_limit l us u.uuid
      ∙ present
      ∙ ap some (
          sym found.same_limit
          ∙ agree found.id found.user
              (ground (arith, lookup-users_by_id found.id us [], found.filed)) found.same_uuid)
]
  where
    table : Map ℕ UserSpec
    table = users_by_id us []

    filed : lookup id table ≡ some u
    filed = ground (arith, lookup-users_by_id id us [])
