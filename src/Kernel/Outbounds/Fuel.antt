-- ===== src/Kernel/Outbounds/Fuel.antt =====
-- The depth of the visits of the outbounds, and when no visit fails.
use cpanelde.Prelude.{
  ℕ, zero, suc, ◌<◌, ◌≤◌, ◌≡◌, refl, ap, ◌∙◌, Bool, true, false, not, ◌&&◌, List, [], ◌∷◌, arith,
  if◌then◌else◌, Text, Option, ◌==◌, text_eq, nat_eq, Map, lookup, Bool-cases, Option-cases, inl,
  inr, eq_of_beq, ==_refl, keys, is_some, ==_comm,
}
use cpanelde.Prelude.Sorting.{has_text}
use cpanelde.Kernel.Outbounds.{
  Outbound, Settings, Visits, Outcome, out_of_fuel, failed, visited, mark, dependencies, and_then,
  visit_all, enter, open_tag, visit,
}
use cpanelde.Kernel.Outbounds.Visit.{
  Sound, Step, Stepped, Filed, visit-Stepped, visit_all-Stepped, mark-enter, enter-Sound,
}

-- A tag that is neither done nor being visited.
abbrev free : Text → Visits → Bool
free t s = not (mark t s == 2) && not (mark t s == 1)

abbrev pub count_free : List Text → Visits → ℕ
count_free [] s = 0
count_free (t ∷ ts) s = if free t s then suc (count_free ts s) else count_free ts s

abbrev Shrinks : Visits → Visits → Type 0
Shrinks s s' = (t : Text) → free t s' ≡ true → free t s ≡ true

count_free-le : (ts : List Text) (s s' : Visits) → Shrinks s s' → count_free ts s' ≤ count_free ts s
count_free-le [] s s' h = omega arith
count_free-le (t ∷ ts) s s' h = ground (arith, count_free-le ts s s' h, h t)

count_free-lt :
    (tag : Text) (ts : List Text) (s s' : Visits)
    → Shrinks s s'
    → has_text tag ts ≡ true
    → free tag s ≡ true
    → free tag s' ≡ false
    → count_free ts s' < count_free ts s
count_free-lt tag [] s s' h m f g = cc
count_free-lt tag (t ∷ ts) s s' h m f g = elim (Bool-cases (t == tag)) [
  | inl same ↦
      let here : t ≡ tag = eq_of_beq t tag same in
      ground
        (arith, count_free-le ts s s' h, f, g, ap (λ k. free k s) here, ap (λ k. free k s') here)
  | inr other ↦ ground (arith, other, h t, count_free-lt tag ts s s' h (ground (arith, other)) f g)
]

has_text-keys :
    {V : Type 0} (t : Text) (m : Map Text V) → has_text t (keys m) ≡ is_some (lookup t m)
unfolding lookup
has_text-keys t [] = refl
has_text-keys t ((j, v) ∷ m) = ground (arith, has_text-keys t m, ==_comm j t)

abbrev pub runs_out : Outcome → Bool
runs_out out_of_fuel = true
runs_out (failed e) = false
runs_out (visited s) = false

abbrev pub fails : Outcome → Bool
fails out_of_fuel = false
fails (failed e) = true
fails (visited s) = false

module _ (settings : Text → Option Settings) (tags : Map Text Outbound) where
  Step-Shrinks : (s s' : Visits) → Step settings tags s s' → Shrinks s s'
  Step-Shrinks s s' p t = ground (arith, p.same t, p.finished t)

  pub and_then_runs :
      (s : Visits) (P : Visits → Type 0) (u : Outcome) (k : Visits → Outcome)
      → Stepped settings tags s P u
      → runs_out u ≡ false
      → ((s' : Visits) → Step settings tags s s' → runs_out (k s') ≡ false)
      → runs_out (and_then u k) ≡ false
  and_then_runs s P out_of_fuel k h g f = g
  and_then_runs s P (failed e) k h g f = refl
  and_then_runs s P (visited s') k h g f = f s' h.0

  pub and_then_fine :
      (s : Visits) (P : Visits → Type 0) (u : Outcome) (k : Visits → Outcome)
      → Stepped settings tags s P u
      → fails u ≡ false
      → ((s' : Visits) → Step settings tags s s' → fails (k s') ≡ false)
      → fails (and_then u k) ≡ false
  and_then_fine s P out_of_fuel k h g f = refl
  and_then_fine s P (failed e) k h g f = g
  and_then_fine s P (visited s') k h g f = f s' h.0

  module _ (filed : Filed settings tags) where
    -- A bound of the free tags is enough fuel.
    abbrev Enough : ℕ → Visits → Type 0
    Enough fuel s = count_free (keys tags) s < fuel

    visit_all_runs :
        (fuel : ℕ)
        → ((t : Text) (s : Visits)
            → Sound settings tags s
            → Enough fuel s
            → runs_out (visit settings tags fuel t s) ≡ false)
        → (ts : List Text) (s : Visits) → Sound settings tags s
        → Enough fuel s
        → runs_out (visit_all (visit settings tags fuel) ts s) ≡ false
    unfolding visit_all
    visit_all_runs fuel ok [] s c e = refl
    visit_all_runs fuel ok (t ∷ ts) s c e = elim (Bool-cases (t == [])) [
      | inl none_given ↦ rw (none_given, visit_all) (visit_all_runs fuel ok ts s c e)
      | inr given ↦
          rw (given, visit_all)
            (and_then_runs s _ (visit settings tags fuel t s) _
              (visit-Stepped settings tags filed fuel t s c) (ok t s c e)
              (λ s' p.
                visit_all_runs fuel ok ts s' p.sound
                  (omega (arith, e, count_free-le (keys tags) s s' (Step-Shrinks s s' p)))))
    ]

    open_tag_runs :
        (fuel : ℕ)
        → ((t : Text) (s : Visits)
            → Sound settings tags s
            → Enough fuel s
            → runs_out (visit settings tags fuel t s) ≡ false)
        → (tag : Text) (s : Visits) → Sound settings tags s
        → Enough (suc fuel) s
        → (mark tag s == 2) ≡ false
        → (mark tag s == 1) ≡ false
        → runs_out (open_tag settings tags (visit settings tags fuel) tag (lookup tag tags) s)
          ≡ false
    open_tag_runs fuel ok tag s c e fresh idle = elim (Option-cases (lookup tag tags)) [
      | inl gone ↦ rw gone refl
      | inr (o, found) ↦ elim (Option-cases (settings o.options)) [
        | inl bad ↦ rw (found, bad) refl
        | inr (r, read) ↦
            let sound = enter-Sound settings tags tag o s c fresh in
            let member : has_text tag (keys tags) ≡ true =
              has_text-keys tag tags ∙ ap is_some found in
            let less =
              count_free-lt tag (keys tags) s (enter tag s)
                (λ t. ground (arith, mark-enter settings tags tag o s t)) member
                (ground (arith, fresh, idle))
                (ground (arith, mark-enter settings tags tag o s tag, ==_refl tag)) in
            rw (found, read)
              (and_then_runs (enter tag s) _
                (visit_all (visit settings tags fuel) (dependencies r) (enter tag s)) _
                (visit_all-Stepped settings tags (visit settings tags fuel)
                  (visit-Stepped settings tags filed fuel) (dependencies r) (enter tag s) sound)
                (visit_all_runs fuel ok (dependencies r) (enter tag s) sound
                  (omega (arith, less, e)))
                (λ s' p. refl))
      ]
    ]

    -- Fuel above the number of the tags that are not yet visited is enough.
    pub visit_runs :
        (fuel : ℕ) (tag : Text) (s : Visits)
        → Sound settings tags s
        → count_free (keys tags) s < fuel
        → runs_out (visit settings tags fuel tag s) ≡ false
    unfolding visit
    visit_runs zero tag s c e = absurd (omega arith)
    visit_runs (suc fuel) tag s c e = elim (Bool-cases (mark tag s == 2)) [
      | inl ready ↦ rw (ready, visit) refl
      | inr fresh ↦ elim (Bool-cases (mark tag s == 1)) [
        | inl busy ↦ rw (fresh, busy, visit) refl
        | inr idle ↦
            rw (fresh, idle, visit) (open_tag_runs fuel (visit_runs fuel) tag s c e fresh idle)
      ]
    ]
