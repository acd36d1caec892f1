-- ===== src/Machine/Rediscover.antt =====
-- The nodes of a machine after a discovery.
use cpanelde.Prelude.{
  ℕ, ◌≡◌, ◌⊎◌, refl, ap, ◌∙◌, Bool, true, false, not, ◌||◌, List, [], ◌∷◌, arith, any, filter,
  if◌then◌else◌, Text, Option, none, some, ◌==◌, nat_eq, text_eq, Map, keys, lookup, insert, erase,
  has_key, lookup-insert, lookup-erase, Bool-cases, Option-cases, inl, inr, eq_of_beq, is_some,
  ==_refl,
}
use cpanelde.Limiter.Users.{is_member, is_member-filter, is_member-keys}
use cpanelde.ControlPlane.Mailbox.{Event}
use cpanelde.Machine.{
  MachineNode, NodeHandle, Orchestrator, kernel_to_start, start_node, unregister_node, stop_node,
  stop_nodes, wanted_nodes, start_nodes, rediscover, node_event, on_ws_event, route,
}

abbrev pub has_node : ℕ → List MachineNode → Bool
has_node id = any (λ n. id == n.id)

has_key-wanted_nodes :
    (id : ℕ) (ns : List MachineNode) (m : Map ℕ MachineNode)
    → has_key id (wanted_nodes ns m) ≡ has_node id ns || has_key id m
unfolding wanted_nodes
has_key-wanted_nodes id [] m = refl
has_key-wanted_nodes id (n ∷ ns) m =
    ground (arith, has_key-wanted_nodes id ns (insert n.id n m), lookup-insert id n.id n m)

lookup-stop_node :
    (id j : ℕ) (o : Orchestrator)
    → lookup id (stop_node o j).nodes ≡ (if id == j then none else lookup id o.nodes)
unfolding stop_node unregister_node
lookup-stop_node id j o = elim (Option-cases (lookup j o.nodes)) [
  | inr (h, e) ↦ rw (e, stop_node) (lookup-erase id j o.nodes)
  | inl e ↦ elim (Bool-cases (id == j)) [
    | inl same ↦ ground (arith, e, same, ap (λ k. lookup k o.nodes) (eq_of_beq id j same))
    | inr other ↦ ground (arith, e, other)
  ]
]

lookup-stop_nodes :
    (id : ℕ) (ids : List ℕ) (o : Orchestrator)
    → lookup id (stop_nodes ids o).nodes ≡ (if is_member id ids then none else lookup id o.nodes)
unfolding stop_nodes
lookup-stop_nodes id [] o = refl
lookup-stop_nodes id (j ∷ ids) o =
    ground (arith, lookup-stop_nodes id ids (stop_node o j), lookup-stop_node id j o)

module _ (configured : MachineNode → Text) (networks : ℕ → Option Text) where
  -- The handle that runs under an id is kept by a start, and a missing one is made.
  start_node-has_key :
      (id : ℕ) (n : MachineNode) (o : Orchestrator)
      → has_key id (start_node o n (configured n) (networks n.id)).nodes
        ≡ has_key id o.nodes || (id == n.id)
  unfolding start_node
  start_node-has_key id n o = elim (Bool-cases (id == n.id)) [
    | inl same ↦ ground (
      arith,
      same,
      ap (λ k. has_key k o.nodes) (eq_of_beq id n.id same),
      lookup-insert id n.id
          (record {
            done = o.next_done;
            kernel_type = kernel_to_start (configured n) (networks n.id);
          })
          o.nodes,
    )
    | inr other ↦ ground (
      arith,
      other,
      lookup-insert id n.id
          (record {
            done = o.next_done;
            kernel_type = kernel_to_start (configured n) (networks n.id);
          })
          o.nodes,
    )
  ]

  start_node_keeps :
      (id : ℕ) (h : NodeHandle) (n : MachineNode) (o : Orchestrator)
      → lookup id o.nodes ≡ some h
      → (lookup id (start_node o n (configured n) (networks n.id)).nodes ≡ some h)
        × (lookup id (start_node o n (configured n) (networks n.id)).mailboxes
            ≡ lookup id o.mailboxes)
  unfolding start_node
  start_node_keeps id h n o found = elim (Bool-cases (has_key n.id o.nodes)) [
    | inl there ↦ rw (there, start_node) (found, refl)
    | inr absent ↦
        let other : (id == n.id) ≡ false = different absent (Bool-cases (id == n.id)) in
        rw (absent, start_node)
          (
            lookup-insert id n.id _ o.nodes ∙ rw other found,
            lookup-insert id n.id _ o.mailboxes ∙ rw other refl,
          )
  ]
    where
      different :
          has_key n.id o.nodes ≡ false
          → ((id == n.id) ≡ true) ⊎ ((id == n.id) ≡ false)
          → (id == n.id) ≡ false
      different absent (inr other) = other
      different absent (inl same) =
          cc (absent, ap is_some found, ap (λ k. has_key k o.nodes) (eq_of_beq id n.id same))

  start_nodes-has_key :
      (id : ℕ) (ns : List MachineNode) (o : Orchestrator)
      → has_key id (start_nodes configured networks ns o).nodes
        ≡ has_key id o.nodes || has_node id ns
  unfolding start_nodes
  start_nodes-has_key id [] o = ground arith
  start_nodes-has_key id (n ∷ ns) o = ground (
    arith,
    start_nodes-has_key id ns (start_node o n (configured n) (networks n.id)),
    start_node-has_key id n o,
  )

  start_nodes_keeps :
      (id : ℕ) (h : NodeHandle) (ns : List MachineNode) (o : Orchestrator)
      → lookup id o.nodes ≡ some h
      → (lookup id (start_nodes configured networks ns o).nodes ≡ some h)
        × (lookup id (start_nodes configured networks ns o).mailboxes ≡ lookup id o.mailboxes)
  unfolding start_nodes
  start_nodes_keeps id h [] o found = (found, refl)
  start_nodes_keeps id h (n ∷ ns) o found =
      let first = start_node_keeps id h n o found in
      let rest =
        start_nodes_keeps id h ns (start_node o n (configured n) (networks n.id)) first.0 in
      (rest.0, rest.1 ∙ first.1)

  module _ (o : Orchestrator) (ns : List MachineNode) (id : ℕ) where
    obsolete : List ℕ
    obsolete = filter (λ k. not (has_key k (wanted_nodes ns []))) (keys o.nodes)

    stopped :
        lookup id (stop_nodes obsolete o).nodes
        ≡ (if has_node id ns then lookup id o.nodes else none)
    unfolding obsolete lookup
    stopped =
        lookup-stop_nodes id obsolete o
        ∙ ground (
          arith,
          has_key-wanted_nodes id ns [],
          is_member-filter (λ k. not (has_key k (wanted_nodes ns []))) id (keys o.nodes),
          is_member-keys id o.nodes,
        )

    -- After a discovery that the panel answers, the nodes that have a handle are exactly those of
    -- the answer.
    pub has_key-rediscover :
        has_key id (rediscover o configured networks (some ns)).nodes ≡ has_node id ns
    unfolding rediscover obsolete
    has_key-rediscover = start_nodes-has_key id ns (stop_nodes obsolete o) ∙ ground (arith, stopped)

    -- Stopping other nodes leaves the mailbox of a wanted node alone.
    kept_mailbox :
        (ids : List ℕ) (p : Orchestrator)
        → is_member id ids ≡ false
        → lookup id (stop_nodes ids p).mailboxes ≡ lookup id p.mailboxes
    unfolding stop_nodes stop_node unregister_node
    kept_mailbox [] p h = refl
    kept_mailbox (j ∷ ids) p h = ground (
      arith,
      h,
      kept_mailbox ids (stop_node p j),
      lookup-erase id j p.mailboxes,
      lookup-erase id j (erase j p.mailboxes),
    )

    wanted_stays : has_node id ns ≡ true → is_member id obsolete ≡ false
    unfolding obsolete lookup
    wanted_stays want = ground (
      arith,
      want,
      has_key-wanted_nodes id ns [],
      is_member-filter (λ k. not (has_key k (wanted_nodes ns []))) id (keys o.nodes),
    )

    -- A node that has a handle and is still wanted keeps its handle and its mailbox.
    pub rediscover_keeps :
        (h : NodeHandle)
        → lookup id o.nodes ≡ some h
        → has_node id ns ≡ true
        → (lookup id (rediscover o configured networks (some ns)).nodes ≡ some h)
          × (lookup id (rediscover o configured networks (some ns)).mailboxes
              ≡ lookup id o.mailboxes)
    unfolding rediscover obsolete
    rediscover_keeps h found want =
        let both =
          start_nodes_keeps id h ns (stop_nodes obsolete o)
            (ground (arith, stopped, found, want)) in
        (both.0, both.1 ∙ kept_mailbox obsolete o (wanted_stays want))

  -- A node whose service has returned by itself is not started again by any later discovery that
  -- still lists it: it keeps its old handle, it has no mailbox, and an event for it changes nothing.
  pub exited_stays_down :
      (o : Orchestrator) (ns : List MachineNode) (id : ℕ) (h : NodeHandle) (e : Event)
      → lookup id o.nodes ≡ some h
      → has_node id ns ≡ true
      → let o' = rediscover (unregister_node o id) configured networks (some ns) in
        (lookup id o'.nodes ≡ some h)
        × (lookup id o'.mailboxes ≡ none)
        × (on_ws_event o' configured networks none (node_event id (some e)) ≡ o')
  unfolding unregister_node on_ws_event
  exited_stays_down o ns id h e found want =
      let kept = rediscover_keeps (unregister_node o id) ns id h found want in
      let gone : lookup id (unregister_node o id).mailboxes ≡ none =
        lookup-erase id id o.mailboxes ∙ rw (==_refl id) refl in
      (kept.0, kept.1 ∙ gone, dropped (kept.1 ∙ gone))
    where
      dropped :
          lookup id (rediscover (unregister_node o id) configured networks (some ns)).mailboxes
            ≡ none
          → route (rediscover (unregister_node o id) configured networks (some ns)) id (some e)
            ≡ rediscover (unregister_node o id) configured networks (some ns)
      dropped gone = rw gone (ground arith)
