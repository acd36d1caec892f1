-- ===== src/Machine/Route.antt =====
-- Where the events of a machine go.
use cpanelde.Prelude.{
  ℕ, ◌≡◌, ◌⊎◌, refl, ap, ◌∙◌, true, false, not, ◌&&◌, List, arith, if◌then◌else◌, Text, Option,
  none, some, ◌==◌, nat_eq, text_eq, lookup, lookup-insert, Bool-cases, Option-cases, inl, inr,
  eq_of_beq,
}
use cpanelde.ControlPlane.Mailbox.{Event, NodeMailbox, apply}
use cpanelde.Machine.{MachineNode, Orchestrator, node_event, on_ws_event}

abbrev pub applied : Event → Option NodeMailbox → Option NodeMailbox
applied e none = none
applied e (some m) = some (apply m e)

module _ (configured : MachineNode → Text) (networks : ℕ → Option Text) where
  -- An event of a node changes the mailbox that the node has, by the mailbox's own operation, and no
  -- other; one for the id 0 or for a node without a mailbox is dropped.
  pub on_ws_event-mailboxes :
      (o : Orchestrator) (listed : Option (List MachineNode)) (id j : ℕ) (e : Event)
      → lookup j (on_ws_event o configured networks listed (node_event id (some e))).mailboxes ≡ (
          if (j == id) && not (id == 0)
          then applied e (lookup j o.mailboxes)
          else lookup j o.mailboxes)
  unfolding on_ws_event
  on_ws_event-mailboxes o listed id j e = elim (Option-cases (lookup id o.mailboxes)) [
    | inl none_there ↦ ground (arith, none_there, same_box (Bool-cases (j == id)) none_there)
    | inr (m, found) ↦ elim (Bool-cases (j == id)) [
      | inl same ↦ ground (
        arith,
        same,
        found,
        lookup-insert j id (apply m e) o.mailboxes,
        ap (λ k. lookup k o.mailboxes) (eq_of_beq j id same),
      )
      | inr other ↦ ground (arith, other, found, lookup-insert j id (apply m e) o.mailboxes)
    ]
  ]
    where
      same_box :
          ((j == id) ≡ true) ⊎ ((j == id) ≡ false)
          → lookup id o.mailboxes ≡ none
          → (if (j == id) && not (id == 0)
              then applied e (lookup j o.mailboxes)
              else lookup j o.mailboxes)
            ≡ lookup j o.mailboxes
      same_box (inr other) gone = rw other refl
      same_box (inl same) gone =
          let here = ap (λ k. lookup k o.mailboxes) (eq_of_beq j id same) ∙ gone in
          rw here (ground arith)
