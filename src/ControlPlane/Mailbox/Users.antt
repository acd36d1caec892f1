-- ===== src/ControlPlane/Mailbox/Users.antt =====
-- The users of the mailbox as a table from ids to users, over any sequence of events.
use cpanelde.Prelude.{
  ℕ, ◌≡◌, refl, ap, sym, ◌∙◌, true, ◌||◌, List, [], ◌∷◌, if◌then◌else◌, Text, Option, none, some,
  is_some, arith, Bool-cases, inl, inr, codes, ◌==◌, text_eq, eq_of_beq,
}
use mathlib.Core.Path.{fun_ext}
use cpanelde.Model.Users.{find_last, or_else}
use cpanelde.Model.Types.{UserSpec}
use cpanelde.ControlPlane.Delta.{slice, apply_user_delta}
use cpanelde.ControlPlane.Delta.Lookup.{
  apply_user_delta_add, apply_user_delta_remove, apply_user_delta_other,
}
use cpanelde.ControlPlane.Mailbox.{
  EventType, Event, NodeMailbox, sync_config, sync_users, sync_user_delta, sync_devices, apply,
  apply_typed, apply_delta, drain_if_ready,
}
use cpanelde.ControlPlane.Mailbox.Coalesce.{
  apply_all, flags-apply_all, apply_delta_flags, ready-apply_all,
}

abbrev pub Table : Type 0
Table = ℕ → Option UserSpec

-- The effect of a delta on a table.
abbrev pub delta_effect : Text → List UserSpec → Table → Table
delta_effect action delta f id =
    if action == codes "add"
    then or_else (find_last id delta) (f id)
    else if action == codes "remove"
    then (if is_some (find_last id delta) then none else f id)
    else f id

abbrev pub users_effect : Option (List UserSpec) → Table → Table
users_effect none f id = f id
users_effect (some us) f id = find_last id us

-- The effect of an event on a table.
abbrev pub effect : EventType → Event → Table → Table
effect sync_config e f = f
effect sync_devices e f = f
effect sync_users e f = users_effect e.users f
effect sync_user_delta e f = delta_effect e.delta_action e.delta_users f

abbrev pub effects : List Event → Table → Table
effects [] f = f
effects (e ∷ es) f = effects es (effect e.type e f)

abbrev pub table : NodeMailbox → Table
table m id = find_last id (slice m.users)

abbrev table_or : Table → Option (Option (List UserSpec)) → Table
table_or f none id = f id
table_or f (some users) id = find_last id (slice users)

table_or-apply_user_delta :
    (users : Option (List UserSpec)) (action : Text) (delta : List UserSpec) (id : ℕ)
    → let f = λ (id : ℕ). find_last id (slice users) in
      table_or f (apply_user_delta users action delta) id ≡ delta_effect action delta f id
table_or-apply_user_delta users action delta id = elim (Bool-cases (action == codes "add")) [
  | inl a ↦
      let (result, e, found) = apply_user_delta_add users delta in
      rw (eq_of_beq action (codes "add") a, e) (found id)
  | inr a ↦ elim (Bool-cases (action == codes "remove")) [
    | inl r ↦
        let (result, e, found) = apply_user_delta_remove users delta in
        rw (eq_of_beq action (codes "remove") r, e) (found id)
    | inr r ↦ rw (apply_user_delta_other users action delta a r, a, r)
  ]
]

delta_effect_nil : (action : Text) (f : Table) (id : ℕ) → delta_effect action [] f id ≡ f id
delta_effect_nil action f id = ground arith

table-apply_delta :
    (m : NodeMailbox) (action : Text) (delta : List UserSpec) (id : ℕ)
    → m.has_full_user_state ≡ true
    → table (apply_delta m action delta) id ≡ delta_effect action delta (table m) id
unfolding apply_delta
table-apply_delta m action [] id k = sym (delta_effect_nil action (table m) id)
table-apply_delta m action (u ∷ us) id k =
    ground (arith, table_or-apply_user_delta m.users action (u ∷ us) id)

apply_delta_known :
    (m : NodeMailbox) (action : Text) (delta : List UserSpec)
    → m.has_full_user_state ≡ true
    → (apply_delta m action delta).has_full_user_state ≡ true
unfolding apply_delta
apply_delta_known m action [] k = k
apply_delta_known m action (u ∷ us) k = ground arith

apply_typed_known :
    (t : EventType) (m : NodeMailbox) (e : Event)
    → m.has_full_user_state ≡ true
    → (apply_typed t e m).has_full_user_state ≡ true
unfolding apply_typed
apply_typed_known sync_user_delta m e k = apply_delta_known m e.delta_action e.delta_users k
apply_typed_known sync_config m e k = ground arith
apply_typed_known sync_users m e k = ground arith
apply_typed_known sync_devices m e k = ground arith

table-apply_typed :
    (t : EventType) (m : NodeMailbox) (e : Event) (id : ℕ)
    → m.has_full_user_state ≡ true
    → table (apply_typed t e m) id ≡ effect t e (table m) id
unfolding apply_typed
table-apply_typed sync_user_delta m e id k = table-apply_delta m e.delta_action e.delta_users id k
table-apply_typed sync_config m e id k = ground arith
table-apply_typed sync_users m e id k = ground arith
table-apply_typed sync_devices m e id k = ground arith

-- Once the mailbox knows the full list of users, its users after any sequence of events are what
-- the events make of the table: a full list replaces it, a delta "add" overrides the ids it
-- names, a delta "remove" deletes them, and nothing else changes it.
pub table-apply_all :
    (m : NodeMailbox) (es : List Event) (id : ℕ)
    → m.has_full_user_state ≡ true
    → table (apply_all m es) id ≡ effects es (table m) id
unfolding apply_all apply
table-apply_all m [] id k = refl
table-apply_all m (e ∷ es) id k =
    table-apply_all (apply m e) es id (apply_typed_known e.type m e k)
    ∙ ap (λ f. effects es f id) (fun_ext (λ n. table-apply_typed e.type m e n k))

apply_flags :
    (m : NodeMailbox) (e : Event) (u : UserSpec) (us : List UserSpec)
    → e.type ≡ sync_user_delta
    → e.delta_users ≡ u ∷ us
    → (apply m e).dirty_users || (apply m e).needs_reconcile ≡ true
unfolding apply apply_typed
apply_flags m e u us t d = ground (arith, apply_delta_flags m e.delta_action u us)

-- A delta with users in it is never lost: whatever events follow, a ready mailbox then hands out
-- the users, or asks for a reconciliation.
pub delta_not_lost :
    (m : NodeMailbox) (e : Event) (u : UserSpec) (us : List UserSpec) (es : List Event)
    → m.ready ≡ true
    → e.type ≡ sync_user_delta
    → e.delta_users ≡ u ∷ us
    → (drain_if_ready (apply_all m (e ∷ es))).1.has_users
        || (drain_if_ready (apply_all m (e ∷ es))).1.needs_reconcile
      ≡ true
unfolding drain_if_ready apply_all
delta_not_lost m e u us es r t d =
    let pending = flags-apply_all (apply m e) es (apply_flags m e u us t d) in
    ground (arith, ready-apply_all m (e ∷ es), pending)
