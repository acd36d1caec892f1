-- ===== src/Kernel/Outbounds/Acyclic.antt =====
-- Outbounds whose dependencies have no cycle.
use cpanelde.Prelude.{
  ℕ, zero, suc, ◌<◌, ◌≤◌, ◌≡◌, ◌⊎◌, refl, sym, ap, ◌∙◌, true, false, List, [], ◌∷◌, arith, Text,
  Option, some, ◌==◌, text_eq, nat_eq, Map, lookup, Bool-cases, Option-cases, inl, inr, All,
  ==_refl, eq_of_beq,
}
use cpanelde.Kernel.Outbounds.{
  Outbound, Settings, Visits, mark, dependencies, visit_all, enter, open_tag, visit,
}
use cpanelde.Kernel.Outbounds.Visit.{
  Sound, Filed, visit-Stepped, visit_all-Stepped, mark-enter, enter-Sound,
}
use cpanelde.Kernel.Outbounds.Fuel.{fails, and_then_fine}

module _ (settings : Text → Option Settings) (tags : Map Text Outbound) (rank : Text → ℕ) where
  -- The dependencies that are given have a smaller rank.
  abbrev pub Below : ℕ → List Text → Type 0
  Below n = All (λ t. (t ≡ []) ⊎ (rank t < n))

  -- Every outbound's options are readable, and it depends on tags of a smaller rank only.
  abbrev pub Acyclic : Type 0
  Acyclic =
      (t : Text) (o : Outbound)
      → lookup t tags ≡ some o
      → (r : Settings) × (settings o.options ≡ some r) × Below (rank t) (dependencies r)

  -- The tags that are being visited have at least a given rank.
  abbrev Above : ℕ → Visits → Type 0
  Above n s = (t : Text) → (mark t s == 1) ≡ true → n ≤ rank t

  module _ (filed : Filed settings tags) (acyclic : Acyclic) where
    abbrev Fine : ℕ → Type 0
    Fine fuel =
        (t : Text) (s : Visits)
        → Sound settings tags s
        → Above (suc (rank t)) s
        → fails (visit settings tags fuel t s) ≡ false

    visit_all-Fine :
        (fuel n : ℕ)
        → Fine fuel
        → (ts : List Text) (s : Visits) → Sound settings tags s
        → Below n ts
        → Above n s
        → fails (visit_all (visit settings tags fuel) ts s) ≡ false
    unfolding visit_all
    visit_all-Fine fuel n ok [] s c b a = refl
    visit_all-Fine fuel n ok (t ∷ ts) s c b a = elim (Bool-cases (t == [])) [
      | inl none_given ↦ rw (none_given, visit_all) (visit_all-Fine fuel n ok ts s c b.1 a)
      | inr given ↦
          rw (given, visit_all)
            (and_then_fine settings tags s _ (visit settings tags fuel t s) _
              (visit-Stepped settings tags filed fuel t s c)
              (ok t s c (λ k busy. first b.0 given (a k busy)))
              (λ s' p.
                visit_all-Fine fuel n ok ts s' p.sound b.1 (λ k busy. a k (sym (p.same k) ∙ busy))))
    ]
      where
        first :
            {k : Text}
            → (t ≡ []) ⊎ (rank t < n)
            → (t == []) ≡ false
            → n ≤ rank k
            → suc (rank t) ≤ rank k
        first (inl e) given m = cc (ap (λ k. k == []) e, given, ==_refl {A = Text} [])
        first (inr less) given m = omega arith

    enter-Above :
        (tag : Text) (o : Outbound) (s : Visits)
        → Above (suc (rank tag)) s
        → Above (rank tag) (enter tag s)
    enter-Above tag o s a t busy = elim (Bool-cases (t == tag)) [
      | inl same ↦ omega (arith, ap rank (eq_of_beq t tag same))
      | inr other ↦
          let before : (mark t s == 1) ≡ true =
            ground (arith, mark-enter settings tags tag o s t, other, busy) in
          omega (arith, a t before)
    ]

    open_tag-Fine :
        (fuel : ℕ)
        → Fine fuel
        → (tag : Text) (s : Visits) → Sound settings tags s
        → Above (suc (rank tag)) s
        → (mark tag s == 2) ≡ false
        → fails (open_tag settings tags (visit settings tags fuel) tag (lookup tag tags) s) ≡ false
    open_tag-Fine fuel ok tag s c a fresh = elim (Option-cases (lookup tag tags)) [
      | inl gone ↦ rw gone refl
      | inr (o, found) ↦
          let (r, read, below) = acyclic tag o found in
          let sound = enter-Sound settings tags tag o s c fresh in
          rw (found, read)
            (and_then_fine settings tags (enter tag s) _
              (visit_all (visit settings tags fuel) (dependencies r) (enter tag s)) _
              (visit_all-Stepped settings tags (visit settings tags fuel)
                (visit-Stepped settings tags filed fuel) (dependencies r) (enter tag s) sound)
              (visit_all-Fine fuel (rank tag) ok (dependencies r) (enter tag s) sound below
                (enter-Above tag o s a))
              (λ s' p. refl))
    ]

    pub visit_fine :
        (fuel : ℕ) (tag : Text) (s : Visits)
        → Sound settings tags s
        → ((t : Text) → (mark t s == 1) ≡ true → suc (rank tag) ≤ rank t)
        → fails (visit settings tags fuel tag s) ≡ false
    unfolding visit
    visit_fine zero tag s c a = refl
    visit_fine (suc fuel) tag s c a = elim (Bool-cases (mark tag s == 2)) [
      | inl ready ↦ rw (ready, visit) refl
      | inr fresh ↦ elim (Bool-cases (mark tag s == 1)) [
        | inl busy ↦ absurd (omega (arith, a tag busy))
        | inr idle ↦ rw (fresh, idle, visit) (open_tag-Fine fuel (visit_fine fuel) tag s c a fresh)
      ]
    ]
