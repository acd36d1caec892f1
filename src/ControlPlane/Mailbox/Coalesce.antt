-- ===== src/ControlPlane/Mailbox/Coalesce.antt =====
-- What a drain of the mailbox hands out after any sequence of events.
use cpanelde.Prelude.{
  ℕ, ◌≡◌, refl, ap, ◌∙◌, true, false, ◌||◌, List, [], ◌∷◌, if◌then◌else◌, Text, Option, none, some,
  Map, is_some, arith,
}
use cpanelde.Model.Types.{NodeSpec, UserSpec}
use cpanelde.ControlPlane.Mailbox.{
  EventType, Event, NodeMailbox, sync_config, sync_users, sync_user_delta, sync_devices,
  new_mailbox, apply, apply_typed, apply_delta, drain_if_ready, empty_state,
}

unfoldable pub apply_all : NodeMailbox → List Event → NodeMailbox
apply_all m [] = m
apply_all m (e ∷ es) = apply_all (apply m e) es

-- What one event says of the configuration and of the devices.
abbrev pub config_of : EventType → Option NodeSpec → Option NodeSpec
config_of sync_config c = c
config_of _ c = none

abbrev pub devices_of : EventType → Option (Map ℕ (List Text)) → Option (Map ℕ (List Text))
devices_of sync_devices d = d
devices_of _ d = none

abbrev pub or_before {ℓ} : {A : Type ℓ} → Option A → Option A → Option A
or_before none old = old
or_before (some a) old = some a

abbrev pub latest_config : Option NodeSpec → List Event → Option NodeSpec
latest_config c [] = c
latest_config c (e ∷ es) = latest_config (or_before (config_of e.type e.config) c) es

abbrev pub latest_devices : Option (Map ℕ (List Text)) → List Event → Option (Map ℕ (List Text))
latest_devices d [] = d
latest_devices d (e ∷ es) = latest_devices (or_before (devices_of e.type e.device_users) d) es

-- A dirty flag stands only beside the value that it announces.
pub record IsValid (m : NodeMailbox) : Type 0 where
  pub config_present : m.dirty_config ≡ true → is_some m.config ≡ true
  pub devices_present : m.dirty_devices ≡ true → is_some m.device_users ≡ true

pub new_mailbox-IsValid : IsValid new_mailbox
unfolding new_mailbox
new_mailbox-IsValid = ground arith

apply_typed-IsValid :
    (t : EventType) (e : Event) (m : NodeMailbox) → IsValid m → IsValid (apply_typed t e m)
unfolding apply_typed
apply_typed-IsValid sync_config e m v = ground arith
apply_typed-IsValid sync_users e m v = ground arith
apply_typed-IsValid sync_devices e m v = ground arith
apply_typed-IsValid sync_user_delta e m v = delta e.delta_users
  where
    delta : (us : List UserSpec) → IsValid (apply_delta m e.delta_action us)
    delta [] = v
    delta (u ∷ us) = ground arith

-- Applying any event keeps a mailbox valid.
pub apply-IsValid : (m : NodeMailbox) (e : Event) → IsValid m → IsValid (apply m e)
unfolding apply
apply-IsValid m e v = apply_typed-IsValid e.type e m v

-- The configuration and the devices that a drain would hand out.
abbrev pub pending_config : NodeMailbox → Option NodeSpec
pending_config m = if m.dirty_config then m.config else none

abbrev pub pending_devices : NodeMailbox → Option (Map ℕ (List Text))
pending_devices m = if m.dirty_devices then m.device_users else none

record Coalesces (m : NodeMailbox) (t : EventType) (e : Event) : Type 0 where
  config_next :
      pending_config (apply_typed t e m) ≡ or_before (config_of t e.config) (pending_config m)
  devices_next :
      pending_devices (apply_typed t e m)
      ≡ or_before (devices_of t e.device_users) (pending_devices m)
  ready_kept : (apply_typed t e m).ready ≡ m.ready
  users_kept : m.dirty_users ≡ true → (apply_typed t e m).dirty_users ≡ true
  reconcile_kept : m.needs_reconcile ≡ true → (apply_typed t e m).needs_reconcile ≡ true

apply_typed-Coalesces : (m : NodeMailbox) (t : EventType) (e : Event) → Coalesces m t e
unfolding apply_typed
apply_typed-Coalesces m sync_config e = ground arith
apply_typed-Coalesces m sync_users e = ground arith
apply_typed-Coalesces m sync_devices e = ground arith
apply_typed-Coalesces m sync_user_delta e = delta e.delta_users
  where
    delta : (us : List UserSpec) → Coalesces m sync_user_delta (record e { delta_users = us })
    delta [] = ground arith
    delta (u ∷ us) = ground arith

apply-Coalesces : (m : NodeMailbox) (e : Event) → Coalesces m e.type e
apply-Coalesces m e = apply_typed-Coalesces m e.type e

pending_config-apply_all :
    (m : NodeMailbox) (es : List Event)
    → pending_config (apply_all m es) ≡ latest_config (pending_config m) es
unfolding apply_all apply
pending_config-apply_all m [] = refl
pending_config-apply_all m (e ∷ es) =
    pending_config-apply_all (apply m e) es
    ∙ ap (λ c. latest_config c es) (apply-Coalesces m e).config_next

pending_devices-apply_all :
    (m : NodeMailbox) (es : List Event)
    → pending_devices (apply_all m es) ≡ latest_devices (pending_devices m) es
unfolding apply_all apply
pending_devices-apply_all m [] = refl
pending_devices-apply_all m (e ∷ es) =
    pending_devices-apply_all (apply m e) es
    ∙ ap (λ d. latest_devices d es) (apply-Coalesces m e).devices_next

pub ready-apply_all : (m : NodeMailbox) (es : List Event) → (apply_all m es).ready ≡ m.ready
unfolding apply_all apply
ready-apply_all m [] = refl
ready-apply_all m (e ∷ es) = ready-apply_all (apply m e) es ∙ (apply-Coalesces m e).ready_kept

drained :
    (m : NodeMailbox)
    → m.ready ≡ true
    → ((drain_if_ready m).1.config ≡ pending_config m)
      × ((drain_if_ready m).1.device_users ≡ pending_devices m)
unfolding drain_if_ready
drained m r = ground arith

-- A ready mailbox hands out the configuration and the devices of the latest event that carried
-- one, whatever other events came before, between and after, and what was still pending before
-- the events where none of them carried any.
pub drain_if_ready-apply_all :
    (m : NodeMailbox) (es : List Event)
    → m.ready ≡ true
    → ((drain_if_ready (apply_all m es)).1.config ≡ latest_config (pending_config m) es)
      × ((drain_if_ready (apply_all m es)).1.device_users ≡ latest_devices (pending_devices m) es)
drain_if_ready-apply_all m es r =
    let d = drained (apply_all m es) (ready-apply_all m es ∙ r) in
    (d.0 ∙ pending_config-apply_all m es, d.1 ∙ pending_devices-apply_all m es)

-- A mailbox that is not ready hands out nothing and keeps all that it holds.
pub drain_if_ready_early : (m : NodeMailbox) → m.ready ≡ false → drain_if_ready m ≡ (m, empty_state)
unfolding drain_if_ready
drain_if_ready_early m r = ground arith

-- After a drain of a valid mailbox a second one has nothing to hand out.
pub drain_if_ready_twice :
    (m : NodeMailbox) → IsValid m → (drain_if_ready (drain_if_ready m).0).1 ≡ empty_state
unfolding drain_if_ready
drain_if_ready_twice m v = ground arith

-- A pending change of the users survives all later events.
pub flags-apply_all :
    (m : NodeMailbox) (es : List Event)
    → m.dirty_users || m.needs_reconcile ≡ true
    → (apply_all m es).dirty_users || (apply_all m es).needs_reconcile ≡ true
unfolding apply_all apply
flags-apply_all m [] h = h
flags-apply_all m (e ∷ es) h = flags-apply_all (apply m e) es (ground (arith, apply-Coalesces m e))

pub apply_delta_flags :
    (m : NodeMailbox) (action : Text) (u : UserSpec) (us : List UserSpec)
    → (apply_delta m action (u ∷ us)).dirty_users || (apply_delta m action (u ∷ us)).needs_reconcile
      ≡ true
unfolding apply_delta
apply_delta_flags m action u us = ground arith
