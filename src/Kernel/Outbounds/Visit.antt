-- ===== src/Kernel/Outbounds/Visit.antt =====
-- What a visit of the outbounds leaves.
use cpanelde.Prelude.{
  ℕ, zero, suc, ◌≡◌, ◌⊎◌, refl, sym, ap, ◌∙◌, Bool, true, false, ◌||◌, List, [], ◌∷◌, ◌++◌, arith,
  any, if◌then◌else◌, Text, Option, none, some, ◌==◌, text_eq, nat_eq, Map, lookup, lookup-insert,
  Bool-cases, Option-cases, inl, inr, eq_of_beq, ==_refl,
}
use cpanelde.Kernel.Outbounds.{
  Outbound, Settings, Visits, Outcome, out_of_fuel, failed, visited, mark, dependencies, and_then,
  visit_all, enter, leave, open_tag, visit,
}

abbrev pub has_tag : Text → List Outbound → Bool
has_tag t = any (λ o. t == o.tag)

pub has_tag-snoc :
    (t : Text) (os : List Outbound) (o : Outbound)
    → has_tag t (os ++ o ∷ []) ≡ has_tag t os || (t == o.tag)
has_tag-snoc t [] o = ground arith
has_tag-snoc t (x ∷ os) o = ground (arith, has_tag-snoc t os o)

module _ (settings : Text → Option Settings) (tags : Map Text Outbound) where
  -- A tag that is free of charge: it is empty, names no outbound, or stands in the list.
  abbrev pub Ready : List Outbound → List Text → Type 0
  Ready done [] = Unit
  Ready done (t ∷ ts) =
      ((t ≡ []) ⊎ ((lookup t tags ≡ none) ⊎ (has_tag t done ≡ true))) × Ready done ts

  -- A list that grew at its end, each outbound after those it depends on and each tag once.
  pub data Ordered : List Outbound → Type 0 where
    empty : Ordered []
    next :
        {done : List Outbound} (o : Outbound) (r : Settings)
        → lookup o.tag tags ≡ some o
        → settings o.options ≡ some r
        → Ready done (dependencies r)
        → has_tag o.tag done ≡ false
        → Ordered done
        → Ordered (done ++ o ∷ [])

  -- What holds between two visits.
  pub record Sound (s : Visits) : Type 0 where
    pub ordered : Ordered s.result
    pub done : (t : Text) → (mark t s == 2) ≡ has_tag t s.result

  -- What a visit of a list of tags leaves: what was marked stays, and no tag is left half visited.
  pub record Step (s s' : Visits) : Type 0 where
    pub sound : Sound s'
    pub finished : (t : Text) → (mark t s == 2) ≡ true → (mark t s' == 2) ≡ true
    pub same : (t : Text) → (mark t s' == 1) ≡ (mark t s == 1)

  abbrev pub Reached : Text → Visits → Type 0
  Reached t s = (lookup t tags ≡ none) ⊎ (has_tag t s.result ≡ true)

  abbrev pub Stepped : Visits → (Visits → Type 0) → Outcome → Type 0
  Stepped s P out_of_fuel = Unit
  Stepped s P (failed e) = Unit
  Stepped s P (visited s') = Step s s' × P s'

  pub Step-refl : (s : Visits) → Sound s → Step s s
  Step-refl s c = record { sound = c; finished = λ t h. h; same = λ t. refl }

  Step-trans : (s s' s'' : Visits) → Step s s' → Step s' s'' → Step s s''
  Step-trans s s' s'' p q = record {
    sound = q.sound;
    finished = λ t h. q.finished t (p.finished t h);
    same = λ t. q.same t ∙ p.same t;
  }

  pub Reached-Step : (t : Text) (s s' : Visits) → Sound s → Step s s' → Reached t s → Reached t s'
  Reached-Step t s s' c p (inl h) = inl h
  Reached-Step t s s' c p (inr h) = inr (sym (p.sound.done t) ∙ p.finished t (c.done t ∙ h))

  pub Stepped-and_then :
      (s : Visits) (P Q : Visits → Type 0) (o : Outcome) (k : Visits → Outcome)
      → Stepped s P o
      → ((s' : Visits) → Step s s' → P s' → Stepped s' Q (k s'))
      → Stepped s Q (and_then o k)
  Stepped-and_then s P Q out_of_fuel k h f = tt
  Stepped-and_then s P Q (failed e) k h f = tt
  Stepped-and_then s P Q (visited s') k h f = go (k s') (f s' h.0 h.1)
    where
      go : (o : Outcome) → Stepped s' Q o → Stepped s Q o
      go out_of_fuel g = tt
      go (failed e) g = tt
      go (visited s'') g = (Step-trans s s' s'' h.0 g.0, g.1)

  pub Stepped-map :
      (s : Visits) (P Q : Visits → Type 0) (o : Outcome)
      → ((s' : Visits) → Step s s' → P s' → Q s')
      → Stepped s P o
      → Stepped s Q o
  Stepped-map s P Q out_of_fuel f h = tt
  Stepped-map s P Q (failed e) f h = tt
  Stepped-map s P Q (visited s') f h = (h.0, f s' h.0 h.1)

  abbrev pub Visiting : (Text → Visits → Outcome) → Type 0
  Visiting f = (t : Text) (s : Visits) → Sound s → Stepped s (Reached t) (f t s)

  pub visit_all-Stepped :
      (f : Text → Visits → Outcome)
      → Visiting f
      → (ts : List Text) (s : Visits) → Sound s
      → Stepped s (λ s'. Ready s'.result ts) (visit_all f ts s)
  unfolding visit_all
  visit_all-Stepped f ok [] s c = (Step-refl s c, tt)
  visit_all-Stepped f ok (t ∷ ts) s c = elim (Bool-cases (t == [])) [
    | inl none_given ↦
        rw (none_given, visit_all)
          (Stepped-map s _ _ (visit_all f ts s) (λ s' p h. (inl (eq_of_beq t [] none_given), h))
            (visit_all-Stepped f ok ts s c))
    | inr given ↦
        rw (given, visit_all)
          (Stepped-and_then s (Reached t) _ (f t s) (visit_all f ts) (ok t s c) (λ s' p r.
            Stepped-map s' _ _ (visit_all f ts s')
              (λ s'' q h. (inr (Reached-Step t s' s'' p.sound q r), h))
              (visit_all-Stepped f ok ts s' p.sound)))
  ]

  -- Every outbound is filed under its own tag.
  abbrev pub Filed : Type 0
  Filed = (t : Text) (o : Outbound) → lookup t tags ≡ some o → o.tag ≡ t

  module _ (tag : Text) (o : Outbound) where
    pub mark-enter :
        (s : Visits) (t : Text) → mark t (enter tag s) ≡ (if t == tag then 1 else mark t s)
    mark-enter s t = ground (arith, lookup-insert t tag 1 s.state)

    mark-leave :
        (s : Visits) (t : Text) → mark t (leave tag o s) ≡ (if t == tag then 2 else mark t s)
    mark-leave s t = ground (arith, lookup-insert t tag 2 s.state)

    pub enter-Sound : (s : Visits) → Sound s → (mark tag s == 2) ≡ false → Sound (enter tag s)
    enter-Sound s c fresh = record {
      ordered = c.ordered;
      done = λ t. ground (arith, mark-enter s t, c.done t, here t);
    }
      where
        here : (t : Text) → (t == tag) ≡ true → (mark t s == 2) ≡ false
        here t same = rw (eq_of_beq t tag same) fresh

    -- The end of a visit: all dependencies are there and the outbound follows them.
    module _ (s s' : Visits) (r : Settings) (found : lookup tag tags ≡ some o) (own : o.tag ≡ tag)
        (read : settings o.options ≡ some r) (fresh : (mark tag s == 2) ≡ false)
        (idle : (mark tag s == 1) ≡ false) (p : Step (enter tag s) s')
        (ready : Ready s'.result (dependencies r)) where
      absent : has_tag tag s'.result ≡ false
      absent = sym (p.sound.done tag) ∙ ground (arith, p.same tag, mark-enter s tag, ==_refl tag)

      at_tag : (t : Text) → (t == tag) ≡ true → t ≡ tag
      at_tag t = eq_of_beq t tag

      leave-Ordered : Ordered (s'.result ++ o ∷ [])
      leave-Ordered =
          next o r (ap (λ t. lookup t tags) own ∙ found) read ready
            (ap (λ t. has_tag t s'.result) own ∙ absent) p.sound.ordered

      leave-done : (t : Text) → (mark t (leave tag o s') == 2) ≡ has_tag t (s'.result ++ o ∷ [])
      leave-done t =
          ground (
            arith,
            mark-leave s' t,
            has_tag-snoc t s'.result o,
            p.sound.done t,
            ap (λ k. t == k) own,
          )

      leave-finished : (t : Text) → (mark t s == 2) ≡ true → (mark t (leave tag o s') == 2) ≡ true
      leave-finished t h = elim (Bool-cases (t == tag)) [
        | inl same ↦ ground (arith, mark-leave s' t, same)
        | inr other ↦
            let entered : (mark t (enter tag s) == 2) ≡ true =
              ground (arith, mark-enter s t, other, h) in
            ground (arith, mark-leave s' t, other, p.finished t entered)
      ]

      leave-same : (t : Text) → (mark t (leave tag o s') == 1) ≡ (mark t s == 1)
      leave-same t = elim (Bool-cases (t == tag)) [
        | inl same ↦ ground (arith, mark-leave s' t, same, idle, ap (λ k. mark k s) (at_tag t same))
        | inr other ↦ ground (arith, mark-leave s' t, mark-enter s t, other, p.same t)
      ]

      leave-Step : Step s (leave tag o s') × Reached tag (leave tag o s')
      leave-Step = (
        record {
          sound = record { ordered = leave-Ordered; done = leave-done };
          finished = leave-finished;
          same = leave-same;
        },
        inr (has_tag-snoc tag s'.result o ∙ ground (arith, own, ==_refl tag)),
      )

  open_tag-Stepped :
      (f : Text → Visits → Outcome)
      → Visiting f
      → Filed
      → (tag : Text) (s : Visits) → Sound s
      → (mark tag s == 2) ≡ false
      → (mark tag s == 1) ≡ false
      → Stepped s (Reached tag) (open_tag settings tags f tag (lookup tag tags) s)
  open_tag-Stepped f ok filed tag s c fresh idle = elim (Option-cases (lookup tag tags)) [
    | inl gone ↦ rw gone (Step-refl s c, inl gone)
    | inr (o, found) ↦ elim (Option-cases (settings o.options)) [
      | inl bad ↦ rw (found, bad) tt
      | inr (r, read) ↦ rw (found, read) (body o found r read)
    ]
  ]
    where
      body :
          (o : Outbound)
          → lookup tag tags ≡ some o
          → (r : Settings) → settings o.options ≡ some r
          → Stepped s
              (Reached tag)
              (and_then (visit_all f (dependencies r) (enter tag s)) (λ t. visited (leave tag o t)))
      body o found r read =
          relay (visit_all f (dependencies r) (enter tag s))
            (visit_all-Stepped f ok (dependencies r) (enter tag s) (enter-Sound tag o s c fresh))
        where
          relay :
              (u : Outcome)
              → Stepped (enter tag s) (λ s'. Ready s'.result (dependencies r)) u
              → Stepped s (Reached tag) (and_then u (λ t. visited (leave tag o t)))
          relay out_of_fuel h = tt
          relay (failed e) h = tt
          relay (visited s') h =
              leave-Step tag o s s' r found (filed tag o found) read fresh idle h.0 h.1

  -- A visit ends with its tag among the outbounds, unless no outbound has it.
  pub visit-Stepped : Filed → (fuel : ℕ) → Visiting (visit settings tags fuel)
  unfolding visit
  visit-Stepped filed zero tag s c = tt
  visit-Stepped filed (suc fuel) tag s c = elim (Bool-cases (mark tag s == 2)) [
    | inl ready ↦ rw (ready, visit) (Step-refl s c, inr (sym (c.done tag) ∙ ready))
    | inr fresh ↦ elim (Bool-cases (mark tag s == 1)) [
      | inl busy ↦ rw (fresh, busy, visit) tt
      | inr idle ↦
          rw (fresh, idle, visit)
            (open_tag-Stepped (visit settings tags fuel) (visit-Stepped filed fuel) filed tag s c
              fresh idle)
    ]
  ]
