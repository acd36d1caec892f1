-- ===== src/Service/Hashes.antt =====
-- internal/service/service.go: `computeUserHash`, by which the service sees that the users changed.
-- `digest` is the hexadecimal SHA-256 of a text.
use cpanelde.Prelude.{
  ℕ, zero, suc, ◌-◌, ◌/◌, ◌%◌, ◌^◌, ◌≡◌, refl, ap, ◌∙◌, List, [], ◌∷◌, ◌++◌, arith, map,
  if◌then◌else◌, Text, ltb,
}
use cpanelde.Prelude.Int.{ℤ, pos, negsuc}
use cpanelde.Model.Types.{UserSpec}

-- uint64 of an int.
abbrev pub word : ℤ → ℕ
word (pos n) = n % 2 ^ 64
word (negsuc n) = 2 ^ 64 - 1 - n % 2 ^ 64

-- The bytes of a number from the lowest on.
abbrev pub little_endian : ℕ → ℕ → Text
little_endian zero n = []
little_endian (suc k) n = (n % 256) ∷ little_endian k (n / 256)

abbrev pub word_bytes : ℤ → Text
word_bytes z = little_endian 8 (word z)

-- sort.Slice by id; users of one id keep their order here.
unfoldable pub insert_by_id : UserSpec → List UserSpec → List UserSpec
insert_by_id u [] = u ∷ []
insert_by_id u (v ∷ vs) = if ltb v.id u.id then v ∷ insert_by_id u vs else u ∷ v ∷ vs

unfoldable pub sort_by_id : List UserSpec → List UserSpec
unfolding insert_by_id
sort_by_id [] = []
sort_by_id (u ∷ us) = insert_by_id u (sort_by_id us)

abbrev pub user_bytes : UserSpec → Text
user_bytes u =
    word_bytes (pos u.id) ++ u.uuid ++ word_bytes u.speed_limit ++ word_bytes u.device_limit

abbrev pub users_bytes : List UserSpec → Text
users_bytes [] = []
users_bytes (u ∷ us) = user_bytes u ++ users_bytes us

unfoldable pub compute_user_hash : (Text → Text) → List UserSpec → Text
compute_user_hash digest users = digest (users_bytes (sort_by_id users))

-- The users with the route scopes that a function gives.
abbrev pub scoped : (UserSpec → Text) → UserSpec → UserSpec
scoped scope u = record u { route_scope = scope u }

insert_by_id-scoped :
    (scope : UserSpec → Text) (u : UserSpec) (vs : List UserSpec)
    → insert_by_id (scoped scope u) (map (scoped scope) vs) ≡ map (scoped scope) (insert_by_id u vs)
unfolding insert_by_id
insert_by_id-scoped scope u [] = refl
insert_by_id-scoped scope u (v ∷ vs) = ground (arith, insert_by_id-scoped scope u vs)

sort_by_id-scoped :
    (scope : UserSpec → Text) (us : List UserSpec)
    → sort_by_id (map (scoped scope) us) ≡ map (scoped scope) (sort_by_id us)
unfolding sort_by_id
sort_by_id-scoped scope [] = refl
sort_by_id-scoped scope (u ∷ us) =
    ap (insert_by_id (scoped scope u)) (sort_by_id-scoped scope us)
    ∙ insert_by_id-scoped scope u (sort_by_id us)

users_bytes-scoped :
    (scope : UserSpec → Text) (us : List UserSpec)
    → users_bytes (map (scoped scope) us) ≡ users_bytes us
users_bytes-scoped scope [] = refl
users_bytes-scoped scope (u ∷ us) = ap (◌++◌ (user_bytes u)) (users_bytes-scoped scope us)

-- The hash does not see the route scope: however the scopes of the users change, it stays the same,
-- whatever the hash function is.
pub compute_user_hash-scoped :
    (digest : Text → Text) (scope : UserSpec → Text) (us : List UserSpec)
    → compute_user_hash digest (map (scoped scope) us) ≡ compute_user_hash digest us
unfolding compute_user_hash
compute_user_hash-scoped digest scope us =
    ap digest
      (ap users_bytes (sort_by_id-scoped scope us) ∙ users_bytes-scoped scope (sort_by_id us))
