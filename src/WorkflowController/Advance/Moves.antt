-- ===== src/WorkflowController/Advance/Moves.antt =====
-- How `advanceNodes` of internal/controller/workflow_controller.go moves the nodes.
use kube_task.Base.{
  String, Bool, true, false, List, [], ◌∷◌, ◌++◌, append_assoc, ◌≡◌, refl, ◌∙◌, subst, arith,
  append-nil,
}
use kube_task.Api.{Time, Task, NodePhase, NodeStatus, Workflow}
use kube_task.Dag.{Graph}
use kube_task.Kube.{Client, done}
use kube_task.WorkflowController.Nodes.{mark_node_running, mark_node_skipped, sync_node_from_task}
use kube_task.WorkflowController.Nodes.Decide.{has_ended}
use kube_task.WorkflowController.Advance.{
  Sweep, is_running, is_pending, pass_over, record_synced, record_skipped, record_started,
  first_sweep, advance_nodes,
}
use kube_task.WorkflowController.Advance.Rule.{Rule, advance_nodes_rule}

-- A node's life cycle: pending, then running, then ended; or skipped, or adopted at its end, while
-- it is pending.
abbrev pub may_become : NodePhase → NodePhase → Bool
may_become NodePhase.unset NodePhase.unset = true
may_become NodePhase.unset _ = false
may_become NodePhase.pending NodePhase.unset = false
may_become NodePhase.pending _ = true
may_become NodePhase.running NodePhase.running = true
may_become NodePhase.running NodePhase.succeeded = true
may_become NodePhase.running NodePhase.failed = true
may_become NodePhase.running _ = false
may_become NodePhase.succeeded NodePhase.succeeded = true
may_become NodePhase.succeeded _ = false
may_become NodePhase.failed NodePhase.failed = true
may_become NodePhase.failed _ = false
may_become NodePhase.skipped NodePhase.skipped = true
may_become NodePhase.skipped _ = false

pub record Moved (old new : NodeStatus) : Type 0 where
  pub name : new.name ≡ old.name
  pub legal : may_become old.phase new.phase ≡ true
  pub kept : has_ended old.phase ≡ true → new ≡ old

-- Node by node.
abbrev pub AllMoved : List NodeStatus → List NodeStatus → Type 0
AllMoved [] [] = Unit
AllMoved (x ∷ xs) (y ∷ ys) = Moved x y × AllMoved xs ys
AllMoved _ _ = ⊥

Moved-refl : (n : NodeStatus) → Moved n n
Moved-refl n = record { name = refl; legal = ground arith; kept = λ h. refl }

Moved-trans : (a b c : NodeStatus) → Moved a b → Moved b c → Moved a c
Moved-trans a b c p q = record {
  name = q.name ∙ p.name;
  legal = ground (arith, p.legal, q.legal);
  kept = λ h. ground (arith, p.kept h, q.kept);
}

AllMoved-refl : (xs : List NodeStatus) → AllMoved xs xs
AllMoved-refl [] = tt
AllMoved-refl (x ∷ xs) = (Moved-refl x, AllMoved-refl xs)

AllMoved-step :
    (old xs : List NodeStatus) (a b : NodeStatus) (rest : List NodeStatus)
    → Moved a b
    → AllMoved old (xs ++ a ∷ rest)
    → AllMoved old (xs ++ b ∷ rest)
AllMoved-step [] [] a b rest m h = elim h [ ]
AllMoved-step [] (x ∷ xs) a b rest m h = elim h [ ]
AllMoved-step (o ∷ old) [] a b rest m h = (Moved-trans o a b h.0 m, h.1)
AllMoved-step (o ∷ old) (x ∷ xs) a b rest m h = (h.0, AllMoved-step old xs a b rest m h.1)

synced-Moved :
    (now : Time) (node : NodeStatus) (child : Task)
    → is_running node ≡ true
    → Moved node (sync_node_from_task now node child).0
unfolding sync_node_from_task
synced-Moved now node child r = ground arith

skipped-Moved :
    (now : Time) (node : NodeStatus) (reason : String)
    → is_pending node ≡ true
    → Moved node (mark_node_skipped now node reason)
unfolding mark_node_skipped
skipped-Moved now node reason p = ground arith

started-Moved :
    (now : Time) (node : NodeStatus) (child : Task)
    → is_pending node ≡ true
    → Moved node (sync_node_from_task now (mark_node_running now node child) child).0
unfolding sync_node_from_task mark_node_running
started-Moved now node child p = ground arith

nodes-record_synced :
    (r : NodeStatus × Bool) (s : Sweep) → (record_synced r s).nodes ≡ s.nodes ++ r.0 ∷ []
unfolding record_synced
nodes-record_synced (node, true) s = refl
nodes-record_synced (node, false) s = refl

nodes-record_started :
    (r : NodeStatus × Bool) (s : Sweep) → (record_started r s).nodes ≡ s.nodes ++ r.0 ∷ []
unfolding record_started
nodes-record_started (node, b) s = refl

module _ (quote : String → String) (wf : Workflow) (graph : Graph) (old : List NodeStatus) where
  snoc :
      (xs : List NodeStatus) (b : NodeStatus) (rest : List NodeStatus)
      → AllMoved old (xs ++ b ∷ rest)
      → AllMoved old ((xs ++ b ∷ []) ++ rest)
  snoc xs b rest h = rw (append_assoc xs (b ∷ []) rest) h

  Moved-Rule : Rule quote wf graph (λ rest s. AllMoved old (s.nodes ++ rest)) (AllMoved old)
  unfolding pass_over record_skipped
  Moved-Rule = record {
    over = λ node rest s h. snoc s.nodes node rest h;
    synced = λ now node child rest s r h.
        rw (nodes-record_synced (sync_node_from_task now node child) s) (
          snoc s.nodes _ rest
            (AllMoved-step old s.nodes node _ rest (synced-Moved now node child r) h));
    skipped = λ now node reason rest s p d h.
        snoc s.nodes _ rest
          (AllMoved-step old s.nodes node _ rest (skipped-Moved now node reason p) h);
    started = λ now node reason child rest s p d free h.
        rw
          (nodes-record_started (sync_node_from_task now (mark_node_running now node child) child)
            s)
          (snoc s.nodes _ rest
            (AllMoved-step old s.nodes node _ rest (started-Moved now node child p) h));
    stopped = λ node rest s h. h;
    ended = λ s h. subst (AllMoved old) (append-nil s.nodes) h;
    repeated = λ s h. subst (AllMoved old) (append-nil s.nodes) h;
  }

-- `advanceNodes` keeps the nodes in their order and under their names, moves each along its life
-- cycle only, and leaves a node that has succeeded, failed or been skipped as it is.
pub advance_nodes-AllMoved :
    {S : Type 0} (client : Client S) (quote : String → String) (wf : Workflow) (graph : Graph)
    (st st' : S) (wf' : Workflow) (changed : Bool)
    → advance_nodes client quote wf graph st ≡ (done (wf', changed), st')
    → AllMoved wf.status.nodes wf'.status.nodes
unfolding first_sweep
advance_nodes-AllMoved client quote wf graph st st' wf' changed e =
    advance_nodes_rule client quote wf graph (Moved-Rule quote wf graph wf.status.nodes) st st' wf'
      changed (AllMoved-refl wf.status.nodes) e
