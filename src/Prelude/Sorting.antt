-- ===== src/Prelude/Sorting.antt =====
-- sort.Strings: texts in lexicographic order, by insertion.
use Prim.Native.Nat.{ℕ, zero, suc}
use mathlib.Core.Path.{◌≡◌, refl, ap}
use mathlib.Core.Logic.{inl, inr}
use mathlib.Core.Bool.{Bool, true, false, ◌||◌}
use mathlib.Core.List.{List, [], ◌∷◌}
use native.Mathlib.Omega.{arith}
use cpanelde.Prelude.Tests.{ltb, nat_beq, if◌then◌else◌, Bool-cases}
use cpanelde.Prelude.Keys.{Text, text_eq, text_beq_iff, ◌==◌, eq_of_beq}
use cpanelde.Prelude.Lists.{take, All}

-- a < b
unfoldable pub text_ltb : Text → Text → Bool
text_ltb [] [] = false
text_ltb [] (y ∷ ys) = true
text_ltb (x ∷ xs) [] = false
text_ltb (x ∷ xs) (y ∷ ys) = if nat_beq x y then text_ltb xs ys else ltb x y

unfoldable pub insert_sorted : Text → List Text → List Text
insert_sorted a [] = a ∷ []
insert_sorted a (b ∷ bs) = if text_ltb b a then b ∷ insert_sorted a bs else a ∷ b ∷ bs

unfoldable pub sort_strings : List Text → List Text
unfolding insert_sorted
sort_strings [] = []
sort_strings (a ∷ rest) = insert_sorted a (sort_strings rest)

pub text_ltb_irrefl : (a : Text) → text_ltb a a ≡ false
unfolding text_ltb
text_ltb_irrefl [] = refl
text_ltb_irrefl (x ∷ xs) = ground (arith, text_ltb_irrefl xs)

pub text_ltb_trans :
    (a b c : Text) → text_ltb a b ≡ true → text_ltb b c ≡ true → text_ltb a c ≡ true
unfolding text_ltb
text_ltb_trans [] [] c h k = cc
text_ltb_trans [] (y ∷ ys) [] h k = cc
text_ltb_trans [] (y ∷ ys) (z ∷ zs) h k = refl
text_ltb_trans (x ∷ xs) [] c h k = cc
text_ltb_trans (x ∷ xs) (y ∷ ys) [] h k = cc
text_ltb_trans (x ∷ xs) (y ∷ ys) (z ∷ zs) h k = ground (arith, text_ltb_trans xs ys zs)

-- Of two different texts one comes first.
pub text_ltb_total : (a b : Text) → text_ltb a b ≡ false → text_ltb b a ≡ false → a ≡ b
unfolding text_ltb
text_ltb_total [] [] h k = refl
text_ltb_total [] (y ∷ ys) h k = cc
text_ltb_total (x ∷ xs) [] h k = cc
text_ltb_total (x ∷ xs) (y ∷ ys) h k = ground (arith, text_ltb_total xs ys)

-- How many texts of a list come before a text, and whether it is among them.
abbrev pub count_less : Text → List Text → ℕ
count_less a [] = 0
count_less a (b ∷ bs) = if text_ltb b a then suc (count_less a bs) else count_less a bs

abbrev pub has_text : Text → List Text → Bool
has_text a [] = false
has_text a (b ∷ bs) = b == a || has_text a bs

count_less-insert_sorted :
    (a b : Text) (bs : List Text) → count_less a (insert_sorted b bs) ≡ count_less a (b ∷ bs)
unfolding insert_sorted
count_less-insert_sorted a b [] = refl
count_less-insert_sorted a b (c ∷ cs) = ground (arith, count_less-insert_sorted a b cs)

pub count_less-sort_strings :
    (a : Text) (bs : List Text) → count_less a (sort_strings bs) ≡ count_less a bs
unfolding sort_strings
count_less-sort_strings a [] = refl
count_less-sort_strings a (b ∷ bs) =
    ground (arith, count_less-insert_sorted a b (sort_strings bs), count_less-sort_strings a bs)

has_text-insert_sorted :
    (a b : Text) (bs : List Text) → has_text a (insert_sorted b bs) ≡ has_text a (b ∷ bs)
unfolding insert_sorted
has_text-insert_sorted a b [] = refl
has_text-insert_sorted a b (c ∷ cs) = ground (arith, has_text-insert_sorted a b cs)

pub has_text-sort_strings :
    (a : Text) (bs : List Text) → has_text a (sort_strings bs) ≡ has_text a bs
unfolding sort_strings
has_text-sort_strings a [] = refl
has_text-sort_strings a (b ∷ bs) =
    ground (arith, has_text-insert_sorted a b (sort_strings bs), has_text-sort_strings a bs)

-- No text of the list comes before the given one.
abbrev NoneLess : Text → List Text → Type 0
NoneLess a = All (λ b. text_ltb b a ≡ false)

abbrev pub IsSorted : List Text → Type 0
IsSorted [] = Unit
IsSorted (a ∷ rest) = NoneLess a rest × IsSorted rest

ltb_false_trans :
    (a b c : Text) → text_ltb b a ≡ false → text_ltb c b ≡ false → text_ltb c a ≡ false
ltb_false_trans a b c h k = elim (Bool-cases (text_ltb c a)) [
  | inr fine ↦ fine
  | inl p ↦ elim (Bool-cases (text_ltb b c)) [
    | inl q ↦ cc (text_ltb_trans b c a q p, h)
    | inr q ↦ cc (text_ltb_total c b k q, h)
  ]
]

NoneLess-trans :
    (a b : Text) (cs : List Text) → text_ltb b a ≡ false → NoneLess b cs → NoneLess a cs
NoneLess-trans a b [] h n = tt
NoneLess-trans a b (c ∷ cs) h n = (ltb_false_trans a b c h n.0, NoneLess-trans a b cs h n.1)

NoneLess-insert_sorted :
    (a b : Text) (bs : List Text)
    → text_ltb b a ≡ false
    → NoneLess a bs
    → NoneLess a (insert_sorted b bs)
unfolding insert_sorted
NoneLess-insert_sorted a b [] h n = (h, tt)
NoneLess-insert_sorted a b (c ∷ cs) h n = ground (arith, NoneLess-insert_sorted a b cs h n.1)

asymm : (a b : Text) → text_ltb a b ≡ true → text_ltb b a ≡ false
asymm a b h = elim (Bool-cases (text_ltb b a)) [
  | inl k ↦ cc (text_ltb_trans a b a h k, text_ltb_irrefl a)
  | inr k ↦ k
]

insert_sorted-IsSorted : (a : Text) (bs : List Text) → IsSorted bs → IsSorted (insert_sorted a bs)
unfolding insert_sorted
insert_sorted-IsSorted a [] s = (tt, tt)
insert_sorted-IsSorted a (b ∷ bs) s = elim (Bool-cases (text_ltb b a)) [
  | inl h ↦
      rw (h, insert_sorted)
        (NoneLess-insert_sorted b a bs (asymm b a h) s.0, insert_sorted-IsSorted a bs s.1)
  | inr h ↦ rw (h, insert_sorted) ((h, NoneLess-trans a b bs h s.0), s)
]

pub sort_strings-IsSorted : (rest : List Text) → IsSorted (sort_strings rest)
unfolding sort_strings
sort_strings-IsSorted [] = tt
sort_strings-IsSorted (a ∷ rest) =
    insert_sorted-IsSorted a (sort_strings rest) (sort_strings-IsSorted rest)

NoneLess-count : (a : Text) (bs : List Text) → NoneLess a bs → count_less a bs ≡ 0
NoneLess-count a [] n = refl
NoneLess-count a (b ∷ bs) n = ground (arith, NoneLess-count a bs n.1)

NoneLess-has_text :
    (a b : Text) (bs : List Text) → NoneLess b bs → has_text a bs ≡ true → text_ltb a b ≡ false
NoneLess-has_text a b [] n h = cc
NoneLess-has_text a b (c ∷ cs) n h = elim (Bool-cases (c == a)) [
  | inl same ↦ rw (eq_of_beq c a same) at n.0
  | inr other ↦ NoneLess-has_text a b cs n.1 (ground (arith, other))
]

-- Among the first `n` of a sorted list stand the members before which fewer than `n` come.
pub has_text-take :
    (a : Text) (n : ℕ) (bs : List Text)
    → IsSorted bs
    → has_text a bs ≡ true
    → has_text a (take n bs) ≡ ltb (count_less a bs) n
has_text-take a n [] s h = cc
has_text-take a zero (b ∷ bs) s h = ground arith
has_text-take a (suc n) (b ∷ bs) s h = elim (Bool-cases (b == a)) [
  | inl same ↦
      let first : count_less a bs ≡ 0 = NoneLess-count a bs (rw (eq_of_beq b a same) at s.0) in
      ground (arith, same, first, text_ltb_irrefl a, ap (λ t. text_ltb t a) (eq_of_beq b a same))
  | inr other ↦
      let later : has_text a bs ≡ true = ground (arith, other) in
      let before = NoneLess-has_text a b bs s.0 later in
      ground
        (arith, other, before, text_ltb_total b a, text_beq_iff b a, has_text-take a n bs s.1 later)
]
