-- ===== src/Machine.antt =====
-- internal/machine/machine.go: the nodes of a machine of the panel. The `done` channel of a handle
-- is a number that no other handle has; a channel of status changes is the list of what waits in
-- it. What the panel answers is an argument, `none` where the request fails. `configured` is the
-- kernel that the local configuration gives a node. The translation of an event of the connection
-- is an argument, `none` for an error.
pub mod Rediscover
pub mod Route
use cpanelde.Prelude.{
  ℕ, suc, Bool, true, false, not, List, [], ◌∷◌, ◌++◌, length, filter, map, if◌then◌else◌, Text,
  Option, none, some, ◌==◌, nat_eq, text_eq, Map, keys, lookup, insert, erase, has_key, ltb,
}
use cpanelde.Prelude.Int.{ℤ, pos, negsuc}
use cpanelde.Model.Support.{resolve_kernel_for_transport}
use cpanelde.ControlPlane.Mailbox.{Event, NodeMailbox, new_mailbox, apply}
use cpanelde.DevicePlatform.Cursor.{at_least}

pub record MachineNode : Type 0 where
  pub id : ℕ
  pub type : Text
  pub name : Text

pub record NodeHandle : Type 0 where
  pub done : ℕ
  pub kernel_type : Text

pub record Orchestrator : Type 0 where
  pub nodes : Map ℕ NodeHandle
  pub mailboxes : Map ℕ NodeMailbox
  pub statuses : Map ℕ (List Bool)
  pub next_done : ℕ
  pub pull_interval : ℕ
  pub push_interval : ℕ

unfoldable pub new_orchestrator : Orchestrator
new_orchestrator = record {
  nodes = [];
  mailboxes = [];
  statuses = [];
  next_done = 0;
  pull_interval = 0;
  push_interval = 0;
}

-- In seconds.
unfoldable pub apply_intervals : Orchestrator → ℤ → ℤ → Orchestrator
apply_intervals o pull push = record o {
  pull_interval = at_least 30 60 pull;
  push_interval = at_least 10 60 push;
}

-- The kernel that the transport of the node's configuration asks for, or the configured one.
abbrev pub kernel_to_start : Text → Option Text → Text
kernel_to_start configured none = configured
kernel_to_start configured (some network) = resolve_kernel_for_transport network configured

unfoldable pub start_node : Orchestrator → MachineNode → Text → Option Text → Orchestrator
start_node o mn configured network = if has_key mn.id o.nodes then o else record o {
  nodes =
      insert mn.id (record { done = o.next_done; kernel_type = kernel_to_start configured network })
        o.nodes;
  mailboxes = insert mn.id new_mailbox o.mailboxes;
  next_done = suc o.next_done;
}

unfoldable pub register_node : Orchestrator → ℕ → List Bool → Orchestrator
register_node o id channel = record o { statuses = insert id channel o.statuses }

-- What runs when the service of a node returns.
unfoldable pub unregister_node : Orchestrator → ℕ → Orchestrator
unregister_node o id = record o { mailboxes = erase id o.mailboxes; statuses = erase id o.statuses }

-- The service is cancelled and waited for.
unfoldable pub stop_node : Orchestrator → ℕ → Orchestrator
unfolding unregister_node
stop_node o id =
    if has_key id o.nodes
    then unregister_node (record o { nodes = erase id o.nodes; mailboxes = erase id o.mailboxes })
        id
    else o

-- Every service is cancelled and waited for; the handles stay.
unfoldable pub stop_each : List ℕ → Orchestrator → Orchestrator
unfolding unregister_node
stop_each [] o = o
stop_each (id ∷ ids) o = stop_each ids (unregister_node o id)

unfoldable pub stop_all : Orchestrator → Orchestrator
stop_all o = stop_each (keys o.nodes) o

unfoldable pub stop_nodes : List ℕ → Orchestrator → Orchestrator
stop_nodes [] o = o
stop_nodes (id ∷ ids) o = stop_nodes ids (stop_node o id)

unfoldable pub wanted_nodes : List MachineNode → Map ℕ MachineNode → Map ℕ MachineNode
wanted_nodes [] m = m
wanted_nodes (n ∷ ns) m = wanted_nodes ns (insert n.id n m)

unfoldable pub start_nodes :
    (MachineNode → Text) → (ℕ → Option Text) → List MachineNode → Orchestrator → Orchestrator
start_nodes configured networks [] o = o
start_nodes configured networks (n ∷ ns) o =
    start_nodes configured networks ns (start_node o n (configured n) (networks n.id))

unfoldable pub rediscover :
    Orchestrator
    → (MachineNode → Text)
    → (ℕ → Option Text)
    → Option (List MachineNode)
    → Orchestrator
rediscover o configured networks none = o
rediscover o configured networks (some ns) =
    let remove = filter (λ id. not (has_key id (wanted_nodes ns []))) (keys o.nodes) in
    start_nodes configured networks ns (stop_nodes remove o)

pub data WsEvent : Type 0 where
  sync_nodes : WsEvent
  node_event : ℕ → Option Event → WsEvent

abbrev pub deliver : Orchestrator → ℕ → Event → Option NodeMailbox → Orchestrator
deliver o id e none = o
deliver o id e (some mailbox) = record o { mailboxes = insert id (apply mailbox e) o.mailboxes }

abbrev pub route : Orchestrator → ℕ → Option Event → Orchestrator
route o id none = o
route o id (some e) = if id == 0 then o else deliver o id e (lookup id o.mailboxes)

-- The list is what the panel answers to the discovery that a change of the nodes causes.
unfoldable pub on_ws_event :
    Orchestrator
    → (MachineNode → Text)
    → (ℕ → Option Text)
    → Option (List MachineNode)
    → WsEvent
    → Orchestrator
on_ws_event o configured networks listed sync_nodes = rediscover o configured networks listed
on_ws_event o configured networks listed (node_event id translated) = route o id translated

-- The send that a full channel, of capacity 4, drops.
abbrev pub offer : Bool → List Bool → List Bool
offer connected channel = if ltb (length channel) 4 then channel ++ connected ∷ [] else channel

unfoldable pub on_ws_status : Orchestrator → Bool → Orchestrator
on_ws_status o connected = record o { statuses = map (λ e. (e.0, offer connected e.1)) o.statuses }
