-- ===== src/Kernel/Outbounds/Order.antt =====
-- The order of the outbounds as a whole.
use cpanelde.Prelude.{
  ℕ, ◌+◌, ◌<◌, ◌≤◌, ◌≡◌, ◌⊎◌, refl, sym, ap, ◌∙◌, true, false, ◌||◌, List, [], ◌∷◌, arith, Text,
  Option, some, ◌==◌, text_eq, nat_eq, Map, lookup, insert, keys, length, Bool-cases, inl, inr,
  eq_of_beq, lookup-insert, has_key, is_some,
}
use cpanelde.Kernel.Outbounds.{
  Outbound, Settings, Visits, Outcome, visited, failed, out_of_fuel, mark, by_tag, visit,
  visit_outbounds, no_visits, ordered_outbounds,
}
use cpanelde.Kernel.Outbounds.Visit.{
  Sound, Step, Stepped, Ordered, empty, next, has_tag, has_tag-snoc, Filed, Reached, visit-Stepped,
  Step-refl, Stepped-and_then, Stepped-map, Reached-Step,
}
use cpanelde.Kernel.Outbounds.Fuel.{
  runs_out, fails, count_free, visit_runs, and_then_fine, and_then_runs,
}
use cpanelde.Kernel.Outbounds.Acyclic.{Acyclic, visit_fine}

module _ (settings : Text → Option Settings) where
  by_tag-Filed :
      (os : List Outbound) (m : Map Text Outbound) → Filed settings m → Filed settings (by_tag os m)
  unfolding by_tag
  by_tag-Filed [] m f = f
  by_tag-Filed (o ∷ os) m f =
      by_tag-Filed os (insert o.tag o m) (λ t v e. stored t v e (Bool-cases (t == o.tag)))
    where
      stored :
          (t : Text) (v : Outbound)
          → lookup t (insert o.tag o m) ≡ some v
          → ((t == o.tag) ≡ true) ⊎ ((t == o.tag) ≡ false)
          → v.tag ≡ t
      stored t v e (inl same) =
          let here : some o ≡ some v = sym (lookup-insert t o.tag o m ∙ rw same refl) ∙ e in
          cc (here, eq_of_beq t o.tag same)
      stored t v e (inr other) = f t v (sym (lookup-insert t o.tag o m ∙ rw other refl) ∙ e)

  has_key-by_tag :
      (t : Text) (os : List Outbound) (m : Map Text Outbound)
      → has_key t (by_tag os m) ≡ has_tag t os || has_key t m
  unfolding by_tag
  has_key-by_tag t [] m = refl
  has_key-by_tag t (o ∷ os) m =
      ground (arith, has_key-by_tag t os (insert o.tag o m), lookup-insert t o.tag o m)

  length-insert :
      (t : Text) (o : Outbound) (m : Map Text Outbound)
      → length (keys (insert t o m)) ≤ length (keys m) + 1
  unfolding insert
  length-insert t o [] = omega arith
  length-insert t o ((k, v) ∷ m) = ground (arith, length-insert t o m)

  length-by_tag :
      (os : List Outbound) (m : Map Text Outbound)
      → length (keys (by_tag os m)) ≤ length (keys m) + length os
  unfolding by_tag
  length-by_tag [] m = omega arith
  length-by_tag (o ∷ os) m =
      omega (arith, length-by_tag os (insert o.tag o m), length-insert o.tag o m)

  count_free-le-length : (ts : List Text) (s : Visits) → count_free ts s ≤ length ts
  count_free-le-length [] s = omega arith
  count_free-le-length (t ∷ ts) s = ground (arith, count_free-le-length ts s)

  module _ (tags : Map Text Outbound) (filed : Filed settings tags) where
    -- The tags of a list are all among the result, or name no outbound.
    abbrev AllReached : List Outbound → Visits → Type 0
    AllReached os s = (t : Text) → has_tag t os ≡ true → Reached settings tags t s

    visit_outbounds-Stepped :
        (fuel : ℕ) (os : List Outbound) (s : Visits)
        → Sound settings tags s
        → Stepped settings tags s (AllReached os) (visit_outbounds settings tags fuel os s)
    unfolding visit_outbounds
    visit_outbounds-Stepped fuel [] s c = (Step-refl settings tags s c, λ t h. cc)
    visit_outbounds-Stepped fuel (o ∷ os) s c =
        Stepped-and_then settings tags s (Reached settings tags o.tag) _
          (visit settings tags fuel o.tag s) _ (visit-Stepped settings tags filed fuel o.tag s c)
          (λ s' p r.
            Stepped-map settings tags s' (AllReached os) _
              (visit_outbounds settings tags fuel os s')
              (λ s'' q all t h. reach s' s'' p.sound q r all t h (Bool-cases (t == o.tag)))
              (visit_outbounds-Stepped fuel os s' p.sound))
      where
        reach :
            (s' s'' : Visits)
            → Sound settings tags s'
            → Step settings tags s' s''
            → Reached settings tags o.tag s'
            → AllReached os s''
            → (t : Text) → has_tag t (o ∷ os) ≡ true
            → ((t == o.tag) ≡ true) ⊎ ((t == o.tag) ≡ false)
            → Reached settings tags t s''
        reach s' s'' c' q r all t h (inl same) =
            rw (eq_of_beq t o.tag same) (Reached-Step settings tags o.tag s' s'' c' q r)
        reach s' s'' c' q r all t h (inr other) = all t (ground (arith, other, h))

    visit_outbounds_runs :
        (fuel : ℕ) (os : List Outbound) (s : Visits)
        → Sound settings tags s
        → length (keys tags) < fuel
        → runs_out (visit_outbounds settings tags fuel os s) ≡ false
    unfolding visit_outbounds
    visit_outbounds_runs fuel [] s c e = refl
    visit_outbounds_runs fuel (o ∷ os) s c e =
        and_then_runs settings tags s _ (visit settings tags fuel o.tag s) _
          (visit-Stepped settings tags filed fuel o.tag s c)
          (visit_runs settings tags filed fuel o.tag s c
            (omega (arith, e, count_free-le-length (keys tags) s)))
          (λ s' p. visit_outbounds_runs fuel os s' p.sound e)

    -- No tag is being visited.
    abbrev Idle : Visits → Type 0
    Idle s = (t : Text) → (mark t s == 1) ≡ false

    visit_outbounds_fine :
        (rank : Text → ℕ)
        → Acyclic settings tags rank
        → (fuel : ℕ) (os : List Outbound) (s : Visits) → Sound settings tags s
        → Idle s
        → fails (visit_outbounds settings tags fuel os s) ≡ false
    unfolding visit_outbounds
    visit_outbounds_fine rank acyclic fuel [] s c idle = refl
    visit_outbounds_fine rank acyclic fuel (o ∷ os) s c idle =
        and_then_fine settings tags s _ (visit settings tags fuel o.tag s) _
          (visit-Stepped settings tags filed fuel o.tag s c)
          (visit_fine settings tags rank filed acyclic fuel o.tag s c (λ t busy. cc (busy, idle t)))
          (λ s' p. visit_outbounds_fine rank acyclic fuel os s' p.sound (λ t. p.same t ∙ idle t))

    Ordered-known :
        (t : Text) (done : List Outbound)
        → Ordered settings tags done
        → has_tag t done ≡ true
        → has_key t tags ≡ true
    Ordered-known t [] empty h = cc
    Ordered-known t _ (next {done} o r found read ready fresh earlier) h =
        elim (Bool-cases (t == o.tag)) [
          | inl same ↦ ap (λ k. has_key k tags) (eq_of_beq t o.tag same) ∙ ap is_some found
          | inr other ↦
              Ordered-known t done earlier (ground (arith, has_tag-snoc t done o, other, h))
        ]

  no_visits-Sound : (tags : Map Text Outbound) → Sound settings tags no_visits
  unfolding lookup
  no_visits-Sound tags = record { ordered = empty; done = λ t. refl }

-- What the order is computed over.
abbrev pub all_tags : List Outbound → Map Text Outbound
all_tags os = by_tag os []

module _ (settings : Text → Option Settings) (os : List Outbound) where
  all_tags-Filed : Filed settings (all_tags os)
  unfolding lookup
  all_tags-Filed = by_tag-Filed settings os [] (λ t o e. cc)

  has_key-all_tags : (t : Text) → has_key t (all_tags os) ≡ has_tag t os
  unfolding lookup
  has_key-all_tags t = has_key-by_tag settings t os [] ∙ ground arith

  -- Whatever the outbounds and their dependencies, cycles included, one more level of visits than
  -- there are outbounds is enough for the visits to end.
  pub ordered_outbounds_runs : runs_out (ordered_outbounds settings os) ≡ false
  unfolding ordered_outbounds
  ordered_outbounds_runs =
      visit_outbounds_runs settings (all_tags os) all_tags-Filed (length os + 1) os no_visits
        (no_visits-Sound settings (all_tags os)) (omega (arith, length-by_tag settings os []))

  -- An order that is found has the tags of the outbounds, each once, and every outbound stands
  -- after the outbounds that its options name as its detour or in its list.
  pub ordered_outbounds-Ordered :
      (s : Visits)
      → ordered_outbounds settings os ≡ visited s
      → Ordered settings (all_tags os) s.result × ((t : Text) → has_tag t s.result ≡ has_tag t os)
  unfolding ordered_outbounds
  ordered_outbounds-Ordered s e = (all.0.sound.ordered, λ t. exact t (Bool-cases (has_tag t os)))
    where
      all :
          Step settings (all_tags os) no_visits s
          × ((t : Text) → has_tag t os ≡ true → Reached settings (all_tags os) t s)
      all = rw e at (
          visit_outbounds-Stepped settings (all_tags os) all_tags-Filed (length os + 1) os no_visits
            (no_visits-Sound settings (all_tags os)))

      exact :
          (t : Text)
          → (has_tag t os ≡ true) ⊎ (has_tag t os ≡ false)
          → has_tag t s.result ≡ has_tag t os
      exact t (inl h) = elim (all.1 t h) [
        | inl gone ↦ cc (has_key-all_tags t, h, ap is_some gone)
        | inr there ↦ there ∙ sym h
      ]
      exact t (inr h) = elim (Bool-cases (has_tag t s.result)) [
        | inr out ↦ out ∙ sym h
        | inl there ↦ cc (
          Ordered-known settings (all_tags os) all_tags-Filed t s.result all.0.sound.ordered there,
          sym (has_key-all_tags t),
          h,
        )
      ]

  -- Outbounds whose options can be read and whose dependencies have no cycle, as a rank shows that
  -- falls along every dependency, always get an order.
  pub ordered_outbounds_acyclic :
      (rank : Text → ℕ)
      → Acyclic settings (all_tags os) rank
      → (s : Visits) × (ordered_outbounds settings os ≡ visited s)
  unfolding ordered_outbounds lookup
  ordered_outbounds_acyclic rank acyclic =
      found (ordered_outbounds settings os) refl ordered_outbounds_runs (
        visit_outbounds_fine settings (all_tags os) all_tags-Filed rank acyclic (length os + 1) os
          no_visits (no_visits-Sound settings (all_tags os)) nothing)
    where
      nothing : (t : Text) → (mark t no_visits == 1) ≡ false
      nothing t = refl

      found :
          (u : Outcome)
          → ordered_outbounds settings os ≡ u
          → runs_out u ≡ false
          → fails u ≡ false
          → (s : Visits) × (ordered_outbounds settings os ≡ visited s)
      found out_of_fuel e r f = cc
      found (failed x) e r f = cc
      found (visited s) e r f = (s, e)
