-- ===== src/Limiter/Users.antt =====
-- internal/limiter/limiter.go.
use cpanelde.Prelude.{
  ℕ, ◌≡◌, refl, ap, Bool, false, not, ◌&&◌, List, [], ◌∷◌, arith, filter, any, if◌then◌else◌, Text,
  Option, ◌==◌, nat_eq, text_eq, Map, keys, lookup, insert, has_key, is_some, lookup-insert,
  UniqueKeys, insert-UniqueKeys, ltb, eq_of_beq, Bool-cases, inl, inr,
}
use cpanelde.Prelude.Int.{ℤ, pos, negsuc}
use cpanelde.Model.Types.{UserSpec}
use cpanelde.Model.Users.{find_last, or_else}

abbrev pub is_positive : ℤ → Bool
is_positive (pos n) = ltb 0 n
is_positive (negsuc n) = false

pub record Limiter : Type 0 where
  pub users : Map ℕ UserSpec
  pub uuid_device_limit : Map Text ℤ
  pub device_limit_events : ℕ

unfoldable pub new_limiter : Limiter
new_limiter = record { users = []; uuid_device_limit = []; device_limit_events = 0 }

-- for _, u := range users { newUsers[u.ID] = u }
unfoldable pub users_by_id : List UserSpec → Map ℕ UserSpec → Map ℕ UserSpec
users_by_id [] m = m
users_by_id (u ∷ us) m = users_by_id us (insert u.id u m)

unfoldable pub removed_ids : Map ℕ UserSpec → Map ℕ UserSpec → List ℕ
removed_ids old new = filter (λ id. not (has_key id new)) (keys old)

-- The loop that rebuilds the index from UUIDs to device limits.
unfoldable pub index_limits : Map ℕ UserSpec → Map Text ℤ → Map Text ℤ
index_limits [] index = index
index_limits ((id, u) ∷ m) index =
    index_limits m
      (if is_positive u.device_limit then insert u.uuid u.device_limit index else index)

unfoldable pub update_users : Limiter → List UserSpec → Limiter × List ℕ
update_users l users =
    let new_users = users_by_id users [] in
    (
      record l { users = new_users; uuid_device_limit = index_limits new_users [] },
      removed_ids l.users new_users,
    )

unfoldable pub get_device_limit_by_uuid : Limiter → Text → Option ℤ
get_device_limit_by_uuid l uuid = lookup uuid l.uuid_device_limit

unfoldable pub snapshot_metrics : Limiter → ℕ
snapshot_metrics l = l.device_limit_events

pub lookup-users_by_id :
    (id : ℕ) (us : List UserSpec) (m : Map ℕ UserSpec)
    → lookup id (users_by_id us m) ≡ or_else (find_last id us) (lookup id m)
unfolding users_by_id
lookup-users_by_id id [] m = refl
lookup-users_by_id id (u ∷ us) m =
    ground (arith, lookup-users_by_id id us (insert u.id u m), lookup-insert id u.id u m)

-- The users are filed under their own ids, each id once.
abbrev pub Filed : Map ℕ UserSpec → Type 0
Filed [] = Unit
Filed ((id, u) ∷ m) = (id ≡ u.id) × Filed m

insert-Filed : (u : UserSpec) (m : Map ℕ UserSpec) → Filed m → Filed (insert u.id u m)
unfolding insert
insert-Filed u [] f = (refl, tt)
insert-Filed u ((id, v) ∷ m) f = ground (arith, insert-Filed u m)

pub users_by_id-Filed :
    (us : List UserSpec) (m : Map ℕ UserSpec) → Filed m → Filed (users_by_id us m)
unfolding users_by_id
users_by_id-Filed [] m f = f
users_by_id-Filed (u ∷ us) m f = users_by_id-Filed us _ (insert-Filed u m f)

pub users_by_id-UniqueKeys :
    (us : List UserSpec) (m : Map ℕ UserSpec) → UniqueKeys m → UniqueKeys (users_by_id us m)
unfolding users_by_id
users_by_id-UniqueKeys [] m f = f
users_by_id-UniqueKeys (u ∷ us) m f = users_by_id-UniqueKeys us _ (insert-UniqueKeys u.id u m f)

-- An id is a member of a list.
abbrev pub is_member : ℕ → List ℕ → Bool
is_member id = any (λ n. id == n)

pub is_member-filter :
    (p : ℕ → Bool) (id : ℕ) (ns : List ℕ) → is_member id (filter p ns) ≡ p id && is_member id ns
is_member-filter p id [] = ground arith
is_member-filter p id (n ∷ ns) = elim (Bool-cases (id == n)) [
  | inl same ↦ ground (arith, is_member-filter p id ns, ap p (eq_of_beq id n same))
  | inr other ↦ ground (arith, is_member-filter p id ns)
]

pub is_member-keys {ℓ} : {V : Type ℓ} (id : ℕ) (m : Map ℕ V) → is_member id (keys m) ≡ has_key id m
unfolding lookup
is_member-keys id [] = refl
is_member-keys id ((n, u) ∷ m) = ground (arith, is_member-keys id m)

-- `UpdateUsers` reports an id as removed exactly when a user was filed under it before and the new
-- list has no user with it; the new table finds the last user that the list has for each id.
pub update_users_lem :
    (l : Limiter) (us : List UserSpec) (id : ℕ)
    → (is_member id (update_users l us).1 ≡ has_key id l.users && not (is_some (find_last id us)))
      × (lookup id (update_users l us).0.users ≡ find_last id us)
unfolding update_users removed_ids lookup
update_users_lem l us id = ground (
  arith,
  is_member-filter (λ n. not (has_key n (users_by_id us []))) id (keys l.users),
  is_member-keys id l.users,
  lookup-users_by_id id us [],
)
