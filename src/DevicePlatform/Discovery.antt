-- ===== src/DevicePlatform/Discovery.antt =====
-- What runs after a discovery: `rediscover` against the list of nodes that the panel sends.
use cpanelde.Prelude.{
  ℕ, ◌≡◌, refl, ap, ◌∙◌, Bool, true, false, not, ◌||◌, ◌&&◌, List, [], ◌∷◌, arith, any, filter,
  if◌then◌else◌, Text, Option, none, some, ◌==◌, nat_eq, text_eq, Map, keys, lookup, insert,
  has_key, lookup-insert, lookup-erase, Bool-cases, Option-cases, inl, inr, ◌⊎◌, eq_of_beq,
}
use cpanelde.Limiter.Users.{is_member, is_member-filter, is_member-keys}
use cpanelde.DevicePlatform.Nodes.{
  Node, NodeHandle, SpecReply, Orchestrator, kernel_to_start, start_node, stop_node, wanted_nodes,
  nodes_to_start, diff_nodes, stop_nodes, start_nodes, rediscover,
}

-- Whether the list has a node with an id.
abbrev pub has_node : ℕ → List Node → Bool
has_node id = any (λ n. id == n.id)

has_key-wanted_nodes :
    (id : ℕ) (ns : List Node) (m : Map ℕ Node)
    → has_key id (wanted_nodes ns m) ≡ has_node id ns || has_key id m
unfolding wanted_nodes
has_key-wanted_nodes id [] m = refl
has_key-wanted_nodes id (n ∷ ns) m =
    ground (arith, has_key-wanted_nodes id ns (insert n.id n m), lookup-insert id n.id n m)

abbrev FiledNodes : Map ℕ Node → Type 0
FiledNodes [] = Unit
FiledNodes ((id, n) ∷ m) = (id ≡ n.id) × FiledNodes m

insert-FiledNodes : (n : Node) (m : Map ℕ Node) → FiledNodes m → FiledNodes (insert n.id n m)
unfolding insert
insert-FiledNodes n [] f = (refl, tt)
insert-FiledNodes n ((id, v) ∷ m) f = ground (arith, insert-FiledNodes n m)

wanted_nodes-FiledNodes :
    (ns : List Node) (m : Map ℕ Node) → FiledNodes m → FiledNodes (wanted_nodes ns m)
unfolding wanted_nodes
wanted_nodes-FiledNodes [] m f = f
wanted_nodes-FiledNodes (n ∷ ns) m f = wanted_nodes-FiledNodes ns _ (insert-FiledNodes n m f)

has_node-nodes_to_start :
    (id : ℕ) (current : Map ℕ NodeHandle) (wanted : Map ℕ Node)
    → FiledNodes wanted
    → has_node id (nodes_to_start current wanted) ≡ has_key id wanted && not (has_key id current)
unfolding nodes_to_start lookup
has_node-nodes_to_start id current [] f = refl
has_node-nodes_to_start id current ((j, n) ∷ wanted) f = elim (Bool-cases (id == j)) [
  | inl same ↦ ground (
    arith,
    same,
    has_node-nodes_to_start id current wanted f.1,
    f.0,
    ap (λ k. has_key k current) (eq_of_beq id j same),
  )
  | inr other ↦ ground (arith, other, has_node-nodes_to_start id current wanted f.1, f.0)
]

lookup-stop_node :
    (id j : ℕ) (o : Orchestrator)
    → lookup id (stop_node o j).nodes ≡ (if id == j then none else lookup id o.nodes)
unfolding stop_node
lookup-stop_node id j o = elim (Option-cases (lookup j o.nodes)) [
  | inl e ↦ rw (e, stop_node) (absent (Bool-cases (id == j)) e)
  | inr (h, e) ↦ rw (e, stop_node) (lookup-erase id j o.nodes)
]
  where
    absent :
        ((id == j) ≡ true) ⊎ ((id == j) ≡ false)
        → lookup j o.nodes ≡ none
        → lookup id o.nodes ≡ (if id == j then none else lookup id o.nodes)
    absent (inl same) e = rw same (ap (λ k. lookup k o.nodes) (eq_of_beq id j same) ∙ e)
    absent (inr other) e = rw other refl

lookup-stop_nodes :
    (id : ℕ) (ids : List ℕ) (o : Orchestrator)
    → lookup id (stop_nodes ids o).nodes ≡ (if is_member id ids then none else lookup id o.nodes)
unfolding stop_nodes
lookup-stop_nodes id [] o = refl
lookup-stop_nodes id (j ∷ ids) o =
    ground (arith, lookup-stop_nodes id ids (stop_node o j), lookup-stop_node id j o)

stop_nodes_keeps : (ids : List ℕ) (o : Orchestrator) → (stop_nodes ids o).stopping ≡ o.stopping
unfolding stop_nodes stop_node
stop_nodes_keeps [] o = refl
stop_nodes_keeps (j ∷ ids) o = ground (arith, stop_nodes_keeps ids (stop_node o j))

-- The handle that a start makes.
abbrev pub new_handle : Orchestrator → Node → Text → NodeHandle
new_handle o node kernel = record { done = o.next_done; node = node; kernel_type = kernel }

pub start_node_new :
    (o : Orchestrator) (node : Node) (configured : Text) (spec : Option SpecReply) (id : ℕ)
    → o.stopping ≡ false
    → lookup node.id o.nodes ≡ none
    → lookup id (start_node o false node configured spec).nodes ≡ (
        if id == node.id
        then some (new_handle o node (kernel_to_start configured spec))
        else lookup id o.nodes)
unfolding start_node
start_node_new o node configured spec id live e =
    rw (live, e, start_node)
      (lookup-insert id node.id (new_handle o node (kernel_to_start configured spec)) o.nodes)

module _ (configured : Node → Text) (specs : ℕ → Option SpecReply) where
  -- A start adds the nodes of the list and leaves those that run alone.
  record Starts (ns : List Node) (o o' : Orchestrator) (id : ℕ) : Type 0 where
    runs : has_key id o'.nodes ≡ has_key id o.nodes || has_node id ns
    kept : (h : NodeHandle) → lookup id o.nodes ≡ some h → lookup id o'.nodes ≡ some h

  start_one-Starts :
      (n : Node) (o : Orchestrator) (id : ℕ)
      → o.stopping ≡ false
      → Starts (n ∷ []) o (start_node o false n (configured n) (specs n.id)) id
  unfolding start_node
  start_one-Starts n o id live = elim (Option-cases (lookup n.id o.nodes)) [
    | inl e ↦ record {
      runs = ground (arith, start_node_new o n (configured n) (specs n.id) id live e);
      kept = λ h found. ground (
        arith,
        found,
        start_node_new o n (configured n) (specs n.id) id live e,
        absent h found e,
      );
    }
    | inr (g, e) ↦ record {
      runs = ground (arith, e, live, present g e);
      kept = λ h found. ground (arith, e, live);
    }
  ]
    where
      absent :
          (h : NodeHandle)
          → lookup id o.nodes ≡ some h
          → lookup n.id o.nodes ≡ none
          → (id == n.id) ≡ false
      absent h found e = elim (Bool-cases (id == n.id)) [
        | inl same ↦ cc (found, e, eq_of_beq id n.id same)
        | inr other ↦ other
      ]

      present :
          (g : NodeHandle)
          → lookup n.id o.nodes ≡ some g
          → (id == n.id) ≡ true
          → has_key id o.nodes ≡ true
      present g e same = cc (e, eq_of_beq id n.id same)

  start_node_keeps :
      (n : Node) (o : Orchestrator)
      → (start_node o false n (configured n) (specs n.id)).stopping ≡ o.stopping
  unfolding start_node
  start_node_keeps n o = ground arith

  start_nodes-Starts :
      (ns : List Node) (o : Orchestrator) (id : ℕ)
      → o.stopping ≡ false
      → Starts ns o (start_nodes false configured specs ns o) id
  unfolding start_nodes
  start_nodes-Starts [] o id live = record { runs = ground arith; kept = λ h e. e }
  start_nodes-Starts (n ∷ ns) o id live =
      let first = start_one-Starts n o id live in
      let next = start_node o false n (configured n) (specs n.id) in
      let rest = start_nodes-Starts ns next id (start_node_keeps n o ∙ live) in
      record {
        runs = ground (arith, first.runs, rest.runs);
        kept = λ h e. rest.kept h (first.kept h e);
      }

  module _ (o : Orchestrator) (ns : List Node) (id : ℕ) (live : o.stopping ≡ false) where
    to_remove : List ℕ
    to_remove = filter (λ k. not (has_key k (wanted_nodes ns []))) (keys o.nodes)

    to_start : List Node
    to_start = nodes_to_start o.nodes (wanted_nodes ns [])

    wanted : has_key id (wanted_nodes ns []) ≡ has_node id ns
    unfolding lookup
    wanted = has_key-wanted_nodes id ns [] ∙ ground arith

    starting : has_node id to_start ≡ has_key id (wanted_nodes ns []) && not (has_key id o.nodes)
    unfolding to_start
    starting =
        has_node-nodes_to_start id o.nodes (wanted_nodes ns []) (wanted_nodes-FiledNodes ns [] tt)

    stopped :
        lookup id (stop_nodes to_remove o).nodes
        ≡ (if has_node id ns then lookup id o.nodes else none)
    unfolding to_remove
    stopped =
        lookup-stop_nodes id to_remove o
        ∙ ground (
          arith,
          wanted,
          is_member-filter (λ k. not (has_key k (wanted_nodes ns []))) id (keys o.nodes),
          is_member-keys id o.nodes,
        )

    starts :
        Starts to_start (stop_nodes to_remove o) (rediscover o false configured specs (some ns)) id
    unfolding rediscover diff_nodes to_start to_remove
    starts =
        start_nodes-Starts to_start (stop_nodes to_remove o) id
          (stop_nodes_keeps to_remove o ∙ live)

    -- After a discovery that the panel answers, the nodes that run are exactly those of the answer,
    -- unless the agent is being stopped.
    pub has_key-rediscover :
        has_key id (rediscover o false configured specs (some ns)).nodes ≡ has_node id ns
    has_key-rediscover = ground (arith, starts.runs, stopped, starting, wanted)

    -- A node that ran before and is still wanted keeps its handle: it is not restarted.
    pub rediscover_keeps :
        (h : NodeHandle)
        → lookup id o.nodes ≡ some h
        → has_node id ns ≡ true
        → lookup id (rediscover o false configured specs (some ns)).nodes ≡ some h
    rediscover_keeps h found want = starts.kept h (ground (arith, stopped, found, want))
