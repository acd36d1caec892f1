-- ===== src/Kernel/Outbounds/Replace.antt =====
-- What `replaceOutbounds` leaves running.
use cpanelde.Prelude.{
  ◌≡◌, ◌≢◌, refl, sym, ap, ◌∙◌, Bool, true, false, List, [], ◌∷◌, ◌++◌, arith, Text, Option, some,
  ◌==◌, text_eq, Map, lookup, insert, has_key, is_some, lookup-insert, Bool-cases, Option-cases,
  inl, inr, eq_of_beq, ==_refl, All, ==_comm,
}
use mathlib.Core.Path.{subst}
use cpanelde.Kernel.Outbounds.{Outbound, Settings, Visits, visited, ordered_outbounds}
use cpanelde.Kernel.Outbounds.Visit.{has_tag, has_tag-snoc, Ordered, empty, next}
use cpanelde.Kernel.Outbounds.Order.{all_tags, ordered_outbounds-Ordered}
use cpanelde.Kernel.Outbounds.Reload.{
  Manager, previous_data, is_kept, replace_each, replace_outbounds,
}

-- Each tag stands once.
abbrev Distinct : List Outbound → Type 0
Distinct [] = Unit
Distinct (o ∷ os) = (has_tag o.tag os ≡ false) × Distinct os

Distinct-snoc :
    (os : List Outbound) (o : Outbound)
    → Distinct os
    → has_tag o.tag os ≡ false
    → Distinct (os ++ o ∷ [])
Distinct-snoc [] o d h = (refl, tt)
Distinct-snoc (x ∷ os) o d h = (
  ground (arith, has_tag-snoc x.tag os o, ==_comm o.tag x.tag, d.0, h),
  Distinct-snoc os o d.1 (ground (arith, h)),
)

Ordered-Distinct :
    (settings : Text → Option Settings) (tags : Map Text Outbound) (os : List Outbound)
    → Ordered settings tags os
    → Distinct os
Ordered-Distinct settings tags [] empty = tt
Ordered-Distinct settings tags _ (next {done} o r found read ready fresh earlier) =
    Distinct-snoc done o (Ordered-Distinct settings tags done earlier) fresh

module _ (encode : Outbound → Option Text) (create : Outbound → Bool)
    (previous : Map Text Text) where
  -- What runs under a tag and is listed among the previous outbounds is encoded as listed.
  abbrev pub Current : Manager → Text → Type 0
  Current m t =
      (o : Outbound)
      → lookup t m ≡ some o
      → has_key t previous ≡ true
      → encode o ≡ lookup t previous

  -- An outbound runs under its tag with the configuration of the given one.
  abbrev pub Runs : Manager → Outbound → Type 0
  Runs m o = (r : Outbound) × (lookup o.tag m ≡ some r) × (encode r ≡ encode o)

  lookup-replace_each :
      (t : Text) (os : List Outbound) (m : Manager)
      → has_tag t os ≡ false
      → lookup t (replace_each encode create previous os m).0 ≡ lookup t m
  unfolding replace_each
  lookup-replace_each t [] m h = refl
  lookup-replace_each t (o ∷ os) m h = ground (
    arith,
    h,
    lookup-replace_each t os m,
    lookup-replace_each t os (insert o.tag o m),
    lookup-insert t o.tag o m,
    Option-cases (encode o),
  )

  kept-Runs :
      (o : Outbound) (bytes : Text) (m : Manager)
      → encode o ≡ some bytes
      → (bytes == []) ≡ false
      → is_kept encode previous m o bytes ≡ true
      → Current m o.tag
      → Runs m o
  kept-Runs o bytes m e full k current = elim (Option-cases (lookup o.tag m)) [
    | inl gone ↦ absurd (ground (arith, k, gone))
    | inr (r, found) ↦ elim (Option-cases (lookup o.tag previous)) [
      | inl unknown ↦ absurd (ground (arith, k, unknown, full, ==_comm bytes []))
      | inr (old, listed) ↦
          let same : (old == bytes) ≡ true = ground (arith, k, listed) in
          (
            r,
            found,
            current r found (ap is_some listed)
                ∙ listed
                ∙ ap some (eq_of_beq old bytes same)
                ∙ sym e,
          )
    ]
  ]

  replace_each_kept :
      (o : Outbound) (os : List Outbound) (m : Manager) (bytes : Text)
      → encode o ≡ some bytes
      → is_kept encode previous m o bytes ≡ true
      → replace_each encode create previous (o ∷ os) m ≡ replace_each encode create previous os m
  unfolding replace_each
  replace_each_kept o os m bytes e kept = rw (e, kept, replace_each) refl

  replace_each_made :
      (o : Outbound) (os : List Outbound) (m : Manager) (bytes : Text)
      → encode o ≡ some bytes
      → is_kept encode previous m o bytes ≡ false
      → create o ≡ true
      → replace_each encode create previous (o ∷ os) m
        ≡ replace_each encode create previous os (insert o.tag o m)
  unfolding replace_each
  replace_each_made o os m bytes e changed made = rw (e, changed, made, replace_each) refl

  -- The loop over outbounds with distinct tags.
  replace_each-Runs :
      (os : List Outbound) (m : Manager)
      → ((o : Outbound) → encode o ≢ some [])
      → Distinct os
      → ((t : Text) → has_tag t os ≡ true → Current m t)
      → (replace_each encode create previous os m).1 ≡ true
      → All (Runs (replace_each encode create previous os m).0) os
  unfolding replace_each
  replace_each-Runs [] m full d current ok = tt
  replace_each-Runs (o ∷ os) m full d current ok = elim (Option-cases (encode o)) [
    | inl bad ↦ cc (rw (bad, replace_each) at ok)
    | inr (bytes, e) ↦ elim (Bool-cases (is_kept encode previous m o bytes)) [
      | inl kept ↦
          let same = replace_each_kept o os m bytes e kept in
          let here =
            kept-Runs o bytes m e (nonempty bytes e) kept
              (current o.tag (ground (arith, ==_refl o.tag))) in
          subst (λ (p : Manager × Bool). All (Runs p.0) (o ∷ os)) (sym same)
            (
              (here.0, lookup-replace_each o.tag os m d.0 ∙ here.1, here.2),
              replace_each-Runs os m full d.1 (λ t h. current t (ground (arith, h)))
                  (ap (λ (p : Manager × Bool). p.1) (sym same) ∙ ok),
            )
      | inr changed ↦ elim (Bool-cases (create o)) [
        | inr refused ↦ cc (rw (e, changed, refused, replace_each) at ok)
        | inl made ↦
            let same = replace_each_made o os m bytes e changed made in
            subst (λ (p : Manager × Bool). All (Runs p.0) (o ∷ os)) (sym same)
              (
                (
                  o,
                  lookup-replace_each o.tag os (insert o.tag o m) d.0
                      ∙ lookup-insert o.tag o.tag o m
                      ∙ rw (==_refl o.tag) refl,
                  refl,
                ),
                replace_each-Runs os (insert o.tag o m) full d.1 later
                    (ap (λ (p : Manager × Bool). p.1) (sym same) ∙ ok),
              )
      ]
    ]
  ]
    where
      nonempty : (bytes : Text) → encode o ≡ some bytes → (bytes == []) ≡ false
      nonempty bytes e = elim (Bool-cases (bytes == [])) [
        | inr fine ↦ fine
        | inl none_left ↦ absurd (full o (e ∙ ap some (eq_of_beq bytes [] none_left)))
      ]

      later : (t : Text) → has_tag t os ≡ true → Current (insert o.tag o m) t
      later t h r found known = elim (Bool-cases (t == o.tag)) [
        | inl same ↦ cc (d.0, h, ap (λ k. has_tag k os) (eq_of_beq t o.tag same))
        | inr other ↦
            current t (ground (arith, h)) r
              (sym (lookup-insert t o.tag o m ∙ rw other refl) ∙ found) known
      ]

-- When the replacement reports no error and what ran before is encoded as the previous
-- configuration, every outbound that was ordered runs under its tag with the desired encoding,
-- whether it was created or kept.
pub replace_outbounds-Runs :
    (settings : Text → Option Settings) (encode : Outbound → Option Text) (create : Outbound → Bool)
    (m : Manager) (desired previous : List Outbound) (s : Visits)
    → ((o : Outbound) → encode o ≢ some [])
    → ((t : Text) → Current encode create (previous_data encode previous []) m t)
    → ordered_outbounds settings desired ≡ visited s
    → (replace_outbounds settings encode create m desired previous).1 ≡ true
    → All
        (Runs encode create
          (previous_data encode previous [])
          (replace_outbounds settings encode create m desired previous).0)
        s.result
unfolding replace_outbounds
replace_outbounds-Runs settings encode create m desired previous s full current e ok =
    rw (e, replace_outbounds)
      (replace_each-Runs encode create (previous_data encode previous []) s.result m full
        (Ordered-Distinct settings (all_tags desired) s.result
          (ordered_outbounds-Ordered settings desired s e).0)
        (λ t h. current t) (rw (e, replace_outbounds) at ok))
