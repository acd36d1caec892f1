-- ===== src/Tests/Platform.antt =====
-- The reports of the device platform and the nodes of a machine on small inputs.
use cpanelde.Prelude.{
  ℕ, ◌≡◌, refl, arith, Bool, true, false, not, ◌&&◌, List, [], ◌∷◌, ◌++◌, Text, codes, Option, some,
  none, nat_eq, text_eq, lookup, insert, take, ◌==◌, if◌then◌else◌,
}
use cpanelde.ControlPlane.Mailbox.{Event, sync_devices}
use cpanelde.ControlPlane.Platform.{
  ApplicationResult, application, Sent, PlatformControl, new_control, report_application,
  flush_applications, send_pending,
}
use cpanelde.ControlPlane.Platform.Keys.{Life, started, reported, flushed, Life-keys}
use cpanelde.ControlPlane.Platform.Queue.{
  confirmed, last_first, all_true, flush_all, flush_applications-order, flush_applications_drains,
}
use cpanelde.Machine.{
  MachineNode, NodeHandle, Orchestrator, new_orchestrator, start_node, unregister_node, rediscover,
  on_ws_event, node_event,
}
use cpanelde.Machine.Rediscover.{exited_stays_down}
use cpanelde.Machine.Route.{applied, on_ws_event-mailboxes}

abbrev received : ApplicationResult
received = record { revision = 4; status = codes "received"; stage = codes "fetch"; error = [] }

-- The first request is lost, and sent again by the next flush.
abbrev waiting : PlatformControl
waiting = (report_application new_control received 100 (false ∷ [])).0

abbrev request : Sent
request = record { key = 0; content = application received 100 }

lost_once : Life waiting (request ∷ [])
unfolding report_application flush_applications send_pending new_control lookup insert
lost_once = reported received 100 (false ∷ []) started

sent_twice : Life (flush_applications waiting (true ∷ [])).0 (request ∷ request ∷ [])
unfolding report_application flush_applications send_pending new_control lookup insert
sent_twice = flushed (true ∷ []) lost_once

Life-keys_example : request.content ≡ request.content
Life-keys_example = Life-keys 0 1 request request sent_twice refl refl refl

flush_applications-order_example :
    (waiting.pending_applications
      ≡ confirmed waiting.pending_applications (true ∷ [])
        ++ (flush_applications waiting (true ∷ [])).0.pending_applications)
    × ((flush_applications waiting (true ∷ [])).1
        ≡ last_first (
            confirmed waiting.pending_applications (true ∷ [])
            ++ take 1 (flush_applications waiting (true ∷ [])).0.pending_applications))
flush_applications-order_example = flush_applications-order waiting (true ∷ [])

abbrev queue : PlatformControl
queue = record new_control { pending_applications = request ∷ request ∷ [] }

-- One request arrives, then one is lost, then the panel confirms again.
abbrev rounds : List (List Bool)
rounds = (true ∷ false ∷ []) ∷ (false ∷ []) ∷ []

flush_applications_drains_example :
    ((flush_all (rounds ++ all_true 2 ∷ []) queue).0.pending_applications ≡ [])
    × ((flush_all (rounds ++ all_true 2 ∷ []) queue).1 ≡ queue.pending_applications)
flush_applications_drains_example = flush_applications_drains rounds queue 2 (omega arith)

abbrev node : MachineNode
node = record { id = 5; type = codes "vless"; name = codes "n" }

abbrev kernel_of : MachineNode → Text
kernel_of n = codes "singbox"

abbrev network_of : ℕ → Option Text
network_of id = none

abbrev one_node : Orchestrator
one_node = start_node new_orchestrator node (codes "singbox") none

abbrev devices_sync : Event
devices_sync = record {
  type = sync_devices;
  config = none;
  users = none;
  delta_action = [];
  delta_users = [];
  device_users = some [];
}

abbrev handle : NodeHandle
handle = record { done = 0; kernel_type = codes "singbox" }

has_handle : lookup 5 one_node.nodes ≡ some handle
unfolding start_node new_orchestrator lookup insert
has_handle = refl

exited_stays_down_example :
    let o' = rediscover (unregister_node one_node 5) kernel_of network_of (some (node ∷ [])) in
    (lookup 5 o'.nodes ≡ some handle)
    × (lookup 5 o'.mailboxes ≡ none)
    × (on_ws_event o' kernel_of network_of none (node_event 5 (some devices_sync)) ≡ o')
exited_stays_down_example =
    exited_stays_down kernel_of network_of one_node (node ∷ []) 5 handle devices_sync has_handle
      refl

abbrev five : ℕ
five = 5

on_ws_event-mailboxes_example :
    lookup 5
      (on_ws_event one_node kernel_of network_of none (node_event 5 (some devices_sync))).mailboxes
    ≡ (if (five == five) && not (five == 0)
        then applied devices_sync (lookup 5 one_node.mailboxes)
        else lookup 5 one_node.mailboxes)
on_ws_event-mailboxes_example =
    on_ws_event-mailboxes kernel_of network_of one_node none 5 5 devices_sync
