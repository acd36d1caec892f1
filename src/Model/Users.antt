-- ===== src/Model/Users.antt =====
-- Lists of users as tables: the last user of a list with an id is the one that counts.
use cpanelde.Prelude.{ℕ, List, [], ◌∷◌, Option, none, some, ◌==◌, nat_eq, if◌then◌else◌}
use cpanelde.Model.Types.{UserSpec}

abbrev pub find_last : ℕ → List UserSpec → Option UserSpec
find_last id [] = none
find_last id (u ∷ us) = elim (find_last id us) [
  | some v ↦ some v
  | none ↦ if id == u.id then some u else none
]

abbrev pub or_else {ℓ} : {A : Type ℓ} → Option A → Option A → Option A
or_else (some a) o = some a
or_else none o = o
