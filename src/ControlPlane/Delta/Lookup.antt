-- ===== src/ControlPlane/Delta/Lookup.antt =====
-- What a lookup by id finds after `applyUserDelta`.
use cpanelde.Prelude.{
  ℕ, zero, suc, ◌+◌, ◌≡◌, refl, ap, sym, ◌∙◌, Bool, false, not, ◌||◌, List, [], ◌∷◌, ◌++◌, arith,
  length, set, filter, if◌then◌else◌, Text, Option, none, some, ◌==◌, nat_eq, text_eq, codes, Map,
  lookup, insert, has_key, is_some, Option-cases, inl, inr, lookup-insert,
}
use cpanelde.Model.Types.{UserSpec}
use cpanelde.Model.Users.{find_last, or_else}
use cpanelde.ControlPlane.Delta.{
  slice, build_index, add_users, ids_of, nil_if_empty, keep_nil, apply_user_delta,
}

-- Where that user stands.
abbrev pub last_position : ℕ → List UserSpec → Option ℕ
last_position id [] = none
last_position id (u ∷ us) = elim (last_position id us) [
  | some i ↦ some (suc i)
  | none ↦ if id == u.id then some 0 else none
]

abbrev shifted : ℕ → Option ℕ → Option ℕ → Option ℕ
shifted n none old = old
shifted n (some i) old = some (n + i)

lookup-build_index :
    (id n : ℕ) (us : List UserSpec) (index : Map ℕ ℕ)
    → lookup id (build_index n us index) ≡ shifted n (last_position id us) (lookup id index)
unfolding build_index
lookup-build_index id n [] index = refl
lookup-build_index id n (u ∷ us) index =
    ground
      (arith, lookup-build_index id (suc n) us (insert u.id n index), lookup-insert id u.id n index)

-- The index maps each id to the place of its last user.
abbrev Indexes : Map ℕ ℕ → List UserSpec → Type 0
Indexes index us = (id : ℕ) → lookup id index ≡ last_position id us

build_index-Indexes : (us : List UserSpec) → Indexes (build_index 0 us []) us
unfolding lookup
build_index-Indexes us id = ground (arith, lookup-build_index id 0 us [])

last_position-append :
    (id : ℕ) (us : List UserSpec) (u : UserSpec)
    → last_position id (us ++ u ∷ [])
      ≡ (if id == u.id then some (length us) else last_position id us)
last_position-append id [] u = ground arith
last_position-append id (v ∷ us) u = ground (arith, last_position-append id us u)

last_position-set :
    (id i : ℕ) (us : List UserSpec) (u : UserSpec)
    → last_position u.id us ≡ some i
    → last_position id (set us i u) ≡ last_position id us
last_position-set id i [] u h = refl
last_position-set id zero (v ∷ us) u h = ground arith
last_position-set id (suc i) (v ∷ us) u h = ground (arith, last_position-set id i us u)

find_last-append :
    (id : ℕ) (us : List UserSpec) (u : UserSpec)
    → find_last id (us ++ u ∷ []) ≡ (if id == u.id then some u else find_last id us)
find_last-append id [] u = ground arith
find_last-append id (v ∷ us) u = ground (arith, find_last-append id us u)

find_last-none : (id : ℕ) (us : List UserSpec) → last_position id us ≡ none → find_last id us ≡ none
find_last-none id [] h = refl
find_last-none id (v ∷ us) h = ground (arith, find_last-none id us)

find_last-set :
    (id i : ℕ) (us : List UserSpec) (u : UserSpec)
    → last_position u.id us ≡ some i
    → find_last id (set us i u) ≡ (if id == u.id then some u else find_last id us)
find_last-set id i [] u h = ground arith
find_last-set id zero (v ∷ us) u h = ground (arith, find_last-none u.id us, eq_case)
  where
    eq_case : id ≡ u.id → find_last id us ≡ find_last u.id us
    eq_case e = ap (λ n. find_last n us) e
find_last-set id (suc i) (v ∷ us) u h = ground (arith, find_last-set id i us u)

module _ (current : List UserSpec) (index : Map ℕ ℕ) (u : UserSpec)
    (h : Indexes index current) where
  set-Indexes : (i : ℕ) → lookup u.id index ≡ some i → Indexes index (set current i u)
  set-Indexes i e id = h id ∙ sym (last_position-set id i current u (sym (h u.id) ∙ e))

  append-Indexes : Indexes (insert u.id (length current) index) (current ++ u ∷ [])
  append-Indexes id =
      ground (
        arith,
        lookup-insert id u.id (length current) index,
        last_position-append id current u,
        h id,
      )

add_users-find_last :
    (current : List UserSpec) (index : Map ℕ ℕ) (delta : List UserSpec) (id : ℕ)
    → Indexes index current
    → find_last id (add_users current index delta)
      ≡ or_else (find_last id delta) (find_last id current)
unfolding add_users
add_users-find_last current index [] id h = refl
add_users-find_last current index (u ∷ delta) id h = elim (Option-cases (lookup u.id index)) [
  | inl e ↦
      rw (e, add_users)
        (add_users-find_last (current ++ u ∷ []) _ delta id (append-Indexes current index u h)
          ∙ ground (arith, find_last-append id current u))
  | inr (i, e) ↦
      rw (e, add_users)
        (add_users-find_last (set current i u) index delta id (set-Indexes current index u h i e)
          ∙ ground (arith, find_last-set id i current u (sym (h u.id) ∙ e)))
]

slice-keep_nil :
    (users : Option (List UserSpec)) (us : List UserSpec) → slice (keep_nil users us) ≡ us
slice-keep_nil none [] = refl
slice-keep_nil none (u ∷ us) = refl
slice-keep_nil (some old) us = refl

-- "add" always succeeds. Afterwards a user is found under an id exactly as it was sent in the
-- delta, the last one if the delta repeats the id, and all other users are found as before.
pub apply_user_delta_add :
    (users : Option (List UserSpec)) (delta : List UserSpec)
    → (result : Option (List UserSpec)) × (apply_user_delta users (codes "add") delta ≡ some result)
      × ((id : ℕ)
          → find_last id (slice result) ≡ or_else (find_last id delta) (find_last id (slice users)))
unfolding apply_user_delta
apply_user_delta_add users delta = (
  keep_nil users (add_users (slice users) (build_index 0 (slice users) []) delta),
  refl,
  λ id.
      ap (find_last id) (slice-keep_nil users _)
      ∙ add_users-find_last (slice users) _ delta id (build_index-Indexes (slice users)),
)

lookup-ids_of :
    (id : ℕ) (us : List UserSpec) (seen : Map ℕ (Unit {0}))
    → has_key id (ids_of us seen) ≡ is_some (find_last id us) || has_key id seen
unfolding ids_of
lookup-ids_of id [] seen = refl
lookup-ids_of id (u ∷ us) seen =
    ground (arith, lookup-ids_of id us (insert u.id tt seen), lookup-insert id u.id tt seen)

find_last-filter :
    (id : ℕ) (p : ℕ → Bool) (us : List UserSpec)
    → find_last id (filter (λ u. p u.id) us) ≡ (if p id then find_last id us else none)
find_last-filter id p [] = ground arith
find_last-filter id p (u ∷ us) = ground (arith, find_last-filter id p us, ap p)

slice-nil_if_empty : (us : List UserSpec) → slice (nil_if_empty us) ≡ us
slice-nil_if_empty [] = refl
slice-nil_if_empty (u ∷ us) = refl

-- "remove" always succeeds. Afterwards no user is found under an id of the delta, and all other
-- users are found as before.
pub apply_user_delta_remove :
    (users : Option (List UserSpec)) (delta : List UserSpec)
    → (result : Option (List UserSpec)) × (apply_user_delta users (codes "remove") delta
        ≡ some result)
      × ((id : ℕ)
          → find_last id (slice result)
            ≡ (if is_some (find_last id delta) then none else find_last id (slice users)))
unfolding apply_user_delta lookup
apply_user_delta_remove users delta = (
  nil_if_empty (filter (λ u. not (has_key u.id (ids_of delta []))) (slice users)),
  refl,
  λ id.
      ap (find_last id)
        (slice-nil_if_empty (filter (λ u. not (has_key u.id (ids_of delta []))) (slice users)))
      ∙ find_last-filter id (λ n. not (has_key n (ids_of delta []))) (slice users)
      ∙ ground (arith, lookup-ids_of id delta []),
)

-- Any other action is refused.
pub apply_user_delta_other :
    (users : Option (List UserSpec)) (action : Text) (delta : List UserSpec)
    → (action == codes "add") ≡ false
    → (action == codes "remove") ≡ false
    → apply_user_delta users action delta ≡ none
unfolding apply_user_delta
apply_user_delta_other users action delta a r = rw (a, r)
