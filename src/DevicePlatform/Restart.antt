-- ===== src/DevicePlatform/Restart.antt =====
-- How the handle of one node changes: the end of its service (`startNode`) and a change of its kernel
-- (`reconcileNodeSpec`) in internal/deviceplatform/orchestrator.go.
use cpanelde.Prelude.{
  ℕ, ◌≡◌, refl, sym, ◌∙◌, false, arith, Text, some, ◌==◌, nat_eq, text_eq, lookup, lookup-erase,
  Bool-cases, inl, inr, eq_of_beq, ==_refl,
}
use cpanelde.DevicePlatform.Nodes.{
  NodeHandle, SpecReply, Orchestrator, desired_kernel, start_node, node_exited, stop_node,
  reconcile_node_spec, forget,
}
use cpanelde.DevicePlatform.Discovery.{start_node_new}

restarted :
    (o : Orchestrator) (configured : Text) (spec : SpecReply) (h : NodeHandle)
    → o.stopping ≡ false
    → lookup h.node.id o.nodes ≡ some h
    → lookup h.node.id
        (start_node (stop_node o h.node.id) false h.node configured (some spec)).nodes
      ≡ some (record {
        done = o.next_done;
        node = h.node;
        kernel_type = desired_kernel configured spec;
      })
unfolding stop_node
restarted o configured spec h live found =
    rw (found, stop_node)
      (start_node_new (forget o h.node.id) h.node configured (some spec) h.node.id live
          (ground (arith, lookup-erase h.node.id h.node.id o.nodes, ==_refl h.node.id))
        ∙ ground (arith, ==_refl h.node.id))

-- The end of a node's service never takes away a handle that was made after it: only the node
-- whose handle has the same `done` channel is forgotten.
pub node_exited_stale :
    (o : Orchestrator) (id done : ℕ) (h : NodeHandle)
    → lookup id o.nodes ≡ some h
    → (h.done == done) ≡ false
    → node_exited o id done ≡ o
unfolding node_exited
node_exited_stale o id done h found other = ground (arith, found, other)

-- If the panel answers both requests with the same specification, a node that runs has the kernel
-- that the specification asks for afterwards, restarted or not, unless the agent is being
-- stopped.
pub reconcile_node_spec-desired :
    (o : Orchestrator) (configured : Text) (spec : SpecReply) (h : NodeHandle)
    → o.stopping ≡ false
    → lookup h.node.id o.nodes ≡ some h
    → (h' : NodeHandle) × (lookup h.node.id
          (reconcile_node_spec o h.node.id configured (some spec) (some spec)).0.nodes
        ≡ some h')
      × (h'.kernel_type ≡ desired_kernel configured spec)
unfolding reconcile_node_spec
reconcile_node_spec-desired o configured spec h live found =
    elim (Bool-cases (desired_kernel configured spec == h.kernel_type)) [
      | inl same ↦ (
        h,
        ground (arith, found, same),
        sym (eq_of_beq (desired_kernel configured spec) h.kernel_type same),
      )
      | inr other ↦ (
        record { done = o.next_done; node = h.node; kernel_type = desired_kernel configured spec },
        rw (found, other, reconcile_node_spec) (restarted o configured spec h live found),
        refl,
      )
    ]
