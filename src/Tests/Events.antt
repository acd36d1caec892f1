-- ===== src/Tests/Events.antt =====
-- The mailbox of internal/controlplane/mailbox.go on a short sequence of events.
use cpanelde.Prelude.{
  ◌≡◌, refl, true, false, ◌||◌, List, [], ◌∷◌, codes, none, some, nat_eq, text_eq,
}
use cpanelde.Prelude.Int.{pos}
use cpanelde.Model.Types.{UserSpec}
use cpanelde.ControlPlane.Mailbox.{
  Event, NodeMailbox, sync_users, sync_user_delta, sync_devices, new_mailbox, mark_ready, apply,
  drain_if_ready,
}
use cpanelde.ControlPlane.Mailbox.Coalesce.{
  apply_all, drain_if_ready-apply_all, latest_config, latest_devices, pending_config,
  pending_devices,
}
use cpanelde.ControlPlane.Mailbox.Users.{table, effects, table-apply_all, delta_not_lost}

abbrev alice : UserSpec
alice = record {
  id = 1;
  uuid = codes "a";
  speed_limit = pos 10;
  device_limit = pos 2;
  route_scope = [];
}

abbrev bob : UserSpec
bob = record {
  id = 2;
  uuid = codes "b";
  speed_limit = pos 0;
  device_limit = pos 0;
  route_scope = [];
}

abbrev full : Event
full = record {
  type = sync_users;
  config = none;
  users = some (alice ∷ []);
  delta_action = [];
  delta_users = [];
  device_users = none;
}

abbrev add_bob : Event
add_bob = record {
  type = sync_user_delta;
  config = none;
  users = none;
  delta_action = codes "add";
  delta_users = bob ∷ [];
  device_users = none;
}

abbrev remove_alice : Event
remove_alice = record add_bob { delta_action = codes "remove"; delta_users = alice ∷ [] }

abbrev devices : Event
devices = record {
  type = sync_devices;
  config = none;
  users = none;
  delta_action = [];
  delta_users = [];
  device_users = some ((1, codes "1.1.1.1" ∷ []) ∷ []);
}

abbrev events : List Event
events = add_bob ∷ devices ∷ remove_alice ∷ []

-- A ready mailbox that has had the full list.
abbrev box : NodeMailbox
box = record {
  ready = true;
  config = none;
  users = some (alice ∷ []);
  device_users = none;
  dirty_config = false;
  dirty_users = true;
  dirty_devices = false;
  needs_reconcile = false;
  has_full_user_state = true;
  notified = true;
}

box_reached : apply (mark_ready new_mailbox) full ≡ box
unfolding apply mark_ready new_mailbox
box_reached = refl

table-apply_all_example : table (apply_all box events) 2 ≡ effects events (table box) 2
table-apply_all_example = table-apply_all box events 2 refl

table_of_two : effects events (table box) 2 ≡ some bob
table_of_two = refl

drain_if_ready-apply_all_example :
    ((drain_if_ready (apply_all box events)).1.config ≡ latest_config (pending_config box) events)
    × ((drain_if_ready (apply_all box events)).1.device_users
        ≡ latest_devices (pending_devices box) events)
drain_if_ready-apply_all_example = drain_if_ready-apply_all box events refl

delta_not_lost_example :
    (drain_if_ready (apply_all box (add_bob ∷ devices ∷ []))).1.has_users
      || (drain_if_ready (apply_all box (add_bob ∷ devices ∷ []))).1.needs_reconcile
    ≡ true
delta_not_lost_example = delta_not_lost box add_bob bob [] (devices ∷ []) refl refl refl
