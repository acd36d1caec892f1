-- ===== src/Kernel/Outbounds/Reload.antt =====
-- internal/kernel/singbox/reload.go: the outbounds that run, before and after a hot reload. The
-- manager of sing-box is a map from tags to the outbounds that run; whether it can create or remove
-- one is a parameter.
use cpanelde.Prelude.{
  ◌≡◌, refl, ap, ◌∙◌, Bool, true, false, not, ◌||◌, ◌&&◌, List, [], ◌∷◌, arith, Text, Option, none,
  some, ◌==◌, text_eq, Map, lookup, insert, erase, has_key, if◌then◌else◌, lookup-erase, Bool-cases,
  Option-cases, inl, inr, eq_of_beq,
}
use cpanelde.Kernel.Outbounds.{
  Outbound, Settings, Outcome, out_of_fuel, failed, visited, ordered_outbounds,
}
use cpanelde.Kernel.Outbounds.Visit.{has_tag}
use cpanelde.Kernel.Outbounds.Order.{ordered_outbounds-Ordered}

abbrev pub Manager : Type 0
Manager = Map Text Outbound

abbrev pub text_or_empty : Option Text → Text
text_or_empty none = []
text_or_empty (some t) = t

abbrev pub reverse_onto : List Outbound → List Outbound → List Outbound
reverse_onto [] ys = ys
reverse_onto (x ∷ xs) ys = reverse_onto xs (x ∷ ys)

module _ (encode : Outbound → Option Text) where
  -- previousByTag
  unfoldable pub previous_data : List Outbound → Map Text Text → Map Text Text
  previous_data [] m = m
  previous_data (o ∷ os) m = previous_data os (insert o.tag (text_or_empty (encode o)) m)

  -- An outbound that runs and is encoded as before is kept.
  abbrev pub is_kept : Map Text Text → Manager → Outbound → Text → Bool
  is_kept previous m o bytes = has_key o.tag m && (text_or_empty (lookup o.tag previous) == bytes)

  -- The loop of `replaceOutbounds`; the Boolean tells that it got to its end.
  unfoldable pub replace_each :
      (Outbound → Bool) → Map Text Text → List Outbound → Manager → Manager × Bool
  replace_each create previous [] m = (m, true)
  replace_each create previous (o ∷ os) m =
      let skip = replace_each create previous os m in
      let go = replace_each create previous os (insert o.tag o m) in
      elim (encode o) [
        | none ↦ (m, false)
        | some bytes ↦
            if is_kept previous m o bytes then skip else if create o then go else (m, false)
      ]

unfoldable pub replace_outbounds :
    (Text → Option Settings)
    → (Outbound → Option Text)
    → (Outbound → Bool)
    → Manager
    → List Outbound
    → List Outbound
    → Manager × Bool
replace_outbounds settings encode create m desired previous =
    elim (ordered_outbounds settings desired) [
      | out_of_fuel ↦ (m, false)
      | failed e ↦ (m, false)
      | visited s ↦ replace_each encode create (previous_data encode previous []) s.result m
    ]

-- The loop of `removeObsoleteOutbounds`, over the order turned round.
unfoldable pub remove_each :
    (Text → Bool) → List Outbound → List Outbound → Manager → Manager × Bool
remove_each remove desired [] m = (m, true)
remove_each remove desired (o ∷ os) m =
    let skip = remove_each remove desired os m in
    let go = remove_each remove desired os (erase o.tag m) in
    if has_tag o.tag desired
    then skip
    else if not (has_key o.tag m)
    then skip
    else if remove o.tag
    then go
    else (m, false)

unfoldable pub remove_obsolete_outbounds :
    (Text → Option Settings)
    → (Text → Bool)
    → Manager
    → List Outbound
    → List Outbound
    → Manager × Bool
remove_obsolete_outbounds settings remove m previous desired =
    elim (ordered_outbounds settings previous) [
      | out_of_fuel ↦ (m, false)
      | failed e ↦ (m, false)
      | visited s ↦ remove_each remove desired (reverse_onto s.result []) m
    ]

has_tag-reverse_onto :
    (t : Text) (xs ys : List Outbound)
    → has_tag t (reverse_onto xs ys) ≡ has_tag t xs || has_tag t ys
has_tag-reverse_onto t [] ys = refl
has_tag-reverse_onto t (x ∷ xs) ys = ground (arith, has_tag-reverse_onto t xs (x ∷ ys))

lookup-remove_each :
    (remove : Text → Bool) (desired os : List Outbound) (m : Manager) (t : Text)
    → (remove_each remove desired os m).1 ≡ true
    → lookup t (remove_each remove desired os m).0
      ≡ (if has_tag t os && not (has_tag t desired) then none else lookup t m)
unfolding remove_each
lookup-remove_each remove desired [] m t ok = refl
lookup-remove_each remove desired (o ∷ os) m t ok = elim (Bool-cases (t == o.tag)) [
  | inl same ↦ ground (
    arith,
    same,
    lookup-remove_each remove desired os m t,
    lookup-remove_each remove desired os (erase o.tag m) t,
    lookup-erase t o.tag m,
    ap (λ k. has_tag k desired) (eq_of_beq t o.tag same),
    ap (λ k. lookup k m) (eq_of_beq t o.tag same),
    Option-cases (lookup t m),
  )
  | inr other ↦ ground (
    arith,
    other,
    lookup-remove_each remove desired os m t,
    lookup-remove_each remove desired os (erase o.tag m) t,
    lookup-erase t o.tag m,
  )
]

-- When the removal reports no error, exactly the outbounds of the previous configuration that the
-- desired one lacks are gone, and every other one runs as before.
pub lookup-remove_obsolete_outbounds :
    (settings : Text → Option Settings) (remove : Text → Bool) (m : Manager)
    (previous desired : List Outbound) (t : Text)
    → (remove_obsolete_outbounds settings remove m previous desired).1 ≡ true
    → lookup t (remove_obsolete_outbounds settings remove m previous desired).0
      ≡ (if has_tag t previous && not (has_tag t desired) then none else lookup t m)
unfolding remove_obsolete_outbounds
lookup-remove_obsolete_outbounds settings remove m previous desired t =
    go (ordered_outbounds settings previous) refl
  where
    go :
        (u : Outcome)
        → ordered_outbounds settings previous ≡ u
        → (remove_obsolete_outbounds settings remove m previous desired).1 ≡ true
        → lookup t (remove_obsolete_outbounds settings remove m previous desired).0
          ≡ (if has_tag t previous && not (has_tag t desired) then none else lookup t m)
    go out_of_fuel e ok = cc (rw (e, remove_obsolete_outbounds) at ok)
    go (failed x) e ok = cc (rw (e, remove_obsolete_outbounds) at ok)
    go (visited s) e ok =
        rw (e, remove_obsolete_outbounds)
          (lookup-remove_each remove desired (reverse_onto s.result []) m t
              (rw (e, remove_obsolete_outbounds) at ok)
            ∙ ground (
              arith,
              has_tag-reverse_onto t s.result [],
              (ordered_outbounds-Ordered settings previous s e).1 t,
            ))
