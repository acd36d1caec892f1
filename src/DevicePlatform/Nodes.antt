-- ===== src/DevicePlatform/Nodes.antt =====
-- The table of running nodes of internal/deviceplatform/orchestrator.go. The `done` channel of a
-- handle is a number that no other handle has. What the panel answers is an argument: the nodes, and
-- the kernel and transport of a node's specification, `none` where the request fails. `configured`
-- is the kernel that the local configuration gives a node.
use cpanelde.Prelude.{
  ℕ, suc, Bool, true, false, not, ◌||◌, List, [], ◌∷◌, filter, if◌then◌else◌, Text, Option, none,
  some, ◌==◌, nat_eq, text_eq, Map, keys, lookup, insert, erase, has_key, is_empty,
}
use cpanelde.Model.Support.{normal, resolve_kernel_for_transport}

pub record Node : Type 0 where
  pub id : ℕ
  pub type : Text
  pub name : Text

pub record NodeHandle : Type 0 where
  pub done : ℕ
  pub node : Node
  pub kernel_type : Text

pub record SpecReply : Type 0 where
  pub kernel_type : Text
  pub transport : Text

pub record Orchestrator : Type 0 where
  pub nodes : Map ℕ NodeHandle
  pub statuses : Map ℕ (Unit {0})
  pub stopping : Bool
  pub next_done : ℕ

unfoldable pub new_orchestrator : Orchestrator
new_orchestrator = record { nodes = []; statuses = []; stopping = false; next_done = 0 }

-- The kernel that the specification asks for, or the configured one.
unfoldable pub desired_kernel : Text → SpecReply → Text
desired_kernel configured spec =
    resolve_kernel_for_transport spec.transport
      (if is_empty (normal spec.kernel_type) then configured else normal spec.kernel_type)

abbrev pub kernel_to_start : Text → Option SpecReply → Text
kernel_to_start configured none = configured
kernel_to_start configured (some spec) = desired_kernel configured spec

abbrev pub add_handle : Orchestrator → Node → Text → Orchestrator
add_handle o node kernel = record o {
  nodes = insert node.id (record { done = o.next_done; node = node; kernel_type = kernel }) o.nodes;
  next_done = suc o.next_done;
}

unfoldable pub start_node : Orchestrator → Bool → Node → Text → Option SpecReply → Orchestrator
start_node o cancelled node configured spec =
    if cancelled || (o.stopping || has_key node.id o.nodes)
    then o
    else add_handle o node (kernel_to_start configured spec)

-- The service of a started node registers its channel of status changes.
unfoldable pub register_status : Orchestrator → ℕ → Orchestrator
register_status o id = record o { statuses = insert id tt o.statuses }

abbrev pub is_current : Option NodeHandle → ℕ → Bool
is_current none done = false
is_current (some h) done = h.done == done

abbrev pub forget : Orchestrator → ℕ → Orchestrator
forget o id = record o { nodes = erase id o.nodes; statuses = erase id o.statuses }

-- What the goroutine of a node does when its service returns.
unfoldable pub node_exited : Orchestrator → ℕ → ℕ → Orchestrator
node_exited o id done = if is_current (lookup id o.nodes) done then forget o id else o

unfoldable pub stop_node : Orchestrator → ℕ → Orchestrator
stop_node o id = if has_key id o.nodes then forget o id else o

unfoldable pub forget_all : List ℕ → Orchestrator → Orchestrator
forget_all [] o = o
forget_all (id ∷ ids) o = forget_all ids (forget o id)

unfoldable pub stop_all : Orchestrator → Orchestrator
stop_all o = forget_all (keys o.nodes) (record o { stopping = true })

-- wanted[node.ID] = node
unfoldable pub wanted_nodes : List Node → Map ℕ Node → Map ℕ Node
wanted_nodes [] m = m
wanted_nodes (n ∷ ns) m = wanted_nodes ns (insert n.id n m)

unfoldable pub nodes_to_start : Map ℕ NodeHandle → Map ℕ Node → List Node
nodes_to_start current [] = []
nodes_to_start current ((id, n) ∷ wanted) =
    let rest = nodes_to_start current wanted in if has_key id current then rest else n ∷ rest

unfoldable pub diff_nodes : Map ℕ NodeHandle → Map ℕ Node → List ℕ × List Node
diff_nodes current wanted =
    (filter (λ id. not (has_key id wanted)) (keys current), nodes_to_start current wanted)

unfoldable pub stop_nodes : List ℕ → Orchestrator → Orchestrator
stop_nodes [] o = o
stop_nodes (id ∷ ids) o = stop_nodes ids (stop_node o id)

unfoldable pub start_nodes :
    Bool → (Node → Text) → (ℕ → Option SpecReply) → List Node → Orchestrator → Orchestrator
start_nodes cancelled configured specs [] o = o
start_nodes cancelled configured specs (n ∷ ns) o =
    start_nodes cancelled configured specs ns (start_node o cancelled n (configured n) (specs n.id))

unfoldable pub rediscover :
    Orchestrator → Bool → (Node → Text) → (ℕ → Option SpecReply) → Option (List Node) → Orchestrator
rediscover o cancelled configured specs none = o
rediscover o cancelled configured specs (some ns) =
    if cancelled
    then o
    else let (remove, start) = diff_nodes o.nodes (wanted_nodes ns []) in
      start_nodes cancelled configured specs start (stop_nodes remove o)

-- The node is restarted if its specification asks for another kernel; `spec` is what the panel
-- answers first, `again` what it answers when the node starts. True is a notification instead.
unfoldable pub reconcile_node_spec :
    Orchestrator → ℕ → Text → Option SpecReply → Option SpecReply → Orchestrator × Bool
reconcile_node_spec o id configured spec again = elim (lookup id o.nodes) [
  | none ↦ (o, false)
  | some handle ↦ elim spec [
    | none ↦ (o, true)
    | some s ↦
        if desired_kernel configured s == handle.kernel_type
        then (o, true)
        else (start_node (stop_node o id) false handle.node configured again, false)
  ]
]
