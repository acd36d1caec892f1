-- ===== src/ControlPlane/Delta.antt =====
-- `applyUserDelta` of internal/controlplane/mailbox.go.
pub mod Lookup
use cpanelde.Prelude.{
  ℕ, zero, suc, ◌+◌, ◌-◌, ◌<◌, ◌≤◌, ◌≡◌, refl, ap, sym, ◌∙◌, ◌≢◌, Bool, true, false, not, ◌||◌,
  ◌&&◌, List, [], ◌∷◌, ◌++◌, arith, length, set, filter, if◌then◌else◌, Text, Option, none, some,
  ltb, ◌==◌, nat_eq, text_eq, codes, Map, lookup, insert, has_key, is_some, Option-cases, inl, inr,
  map, lookup-insert, ==_refl,
}
use cpanelde.Model.Types.{UserSpec}

abbrev pub slice : Option (List UserSpec) → List UserSpec
slice none = []
slice (some us) = us

-- for i, user := range current { index[user.ID] = i }
unfoldable pub build_index : ℕ → List UserSpec → Map ℕ ℕ → Map ℕ ℕ
build_index i [] index = index
build_index i (u ∷ us) index = build_index (suc i) us (insert u.id i index)

-- The loop of the case "add".
unfoldable pub add_users : List UserSpec → Map ℕ ℕ → List UserSpec → List UserSpec
add_users current index [] = current
add_users current index (u ∷ delta) = elim (lookup u.id index) [
  | some i ↦ add_users (set current i u) index delta
  | none ↦ add_users (current ++ u ∷ []) (insert u.id (length current) index) delta
]

-- for _, user := range delta { removeIDs[user.ID] = struct{}{} }
unfoldable pub ids_of : List UserSpec → Map ℕ (Unit {0}) → Map ℕ (Unit {0})
ids_of [] seen = seen
ids_of (u ∷ us) seen = ids_of us (insert u.id tt seen)

-- append(nil, filtered...) is nil if nothing is left.
abbrev pub nil_if_empty : List UserSpec → Option (List UserSpec)
nil_if_empty [] = none
nil_if_empty (u ∷ us) = some (u ∷ us)

-- An empty result of "add" stays what it was: nil, or an empty slice.
abbrev pub keep_nil : Option (List UserSpec) → List UserSpec → Option (List UserSpec)
keep_nil none [] = none
keep_nil none (u ∷ us) = some (u ∷ us)
keep_nil (some old) us = some us

-- The new users, or `none` where the function returns false.
unfoldable pub apply_user_delta :
    Option (List UserSpec) → Text → List UserSpec → Option (Option (List UserSpec))
apply_user_delta users action delta =
    let current = slice users in
    if action == codes "add"
    then some (keep_nil users (add_users current (build_index 0 current []) delta))
    else if action == codes "remove"
    then some (nil_if_empty (filter (λ u. not (has_key u.id (ids_of delta []))) current))
    else none
