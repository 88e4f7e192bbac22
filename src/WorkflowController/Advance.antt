-- ===== src/WorkflowController/Advance.antt =====
-- `advanceNodes` of internal/controller/workflow_controller.go: the pass over the running nodes and
-- the pass over the pending ones. The client, the clock and fmt's `%q` are parameters.
pub mod Outcome
pub mod Slots
pub mod Rule
pub mod Limit
pub mod Moves
pub mod Phases
pub mod Starts
pub mod Accepted
use kube_task.Base.{
  Option, none, some, ℕ, suc, ◌+◌, ◌-◌, String, Bool, true, false, ◌||◌, ◌&&◌, none, some, List, [],
  ◌∷◌, ◌++◌, if◌then◌else◌, lookup, leb, ltb,
}
use kube_task.Api.{Task, NodePhase, NodeStatus, Workflow}
use kube_task.Dag.{Graph, child_task_name, update}
use kube_task.Kube.{Client, Call, Reply, done, failed, name_conflict, pure, throw, attempt, ◌>>=◌}
use kube_task.WorkflowController.Nodes.{
  NodeAction, wait, ready, skip, node_phase_eq, decide_node, mark_node_running, mark_node_skipped,
  sync_node_from_task, fail_workflow,
}
use kube_task.WorkflowController.Children.{list_child_tasks, create_child_task}

-- The variables of `advanceNodes`. `nodes` are those that the pass has been through. `running--`
-- is done for a node that was counted, so the subtraction is exact.
pub record Sweep : Type 0 where
  pub nodes : List NodeStatus
  pub phases : String → NodePhase
  pub running : ℕ
  pub changed : Bool

-- A pass goes on, or it ends at a name conflict, with the nodes as they then are.
pub data Pass : Type 0 where
  swept : Sweep → Pass
  conflict : (message : String) (nodes : List NodeStatus) (changed : Bool) → Pass

abbrev pub is_running : NodeStatus → Bool
is_running node = node_phase_eq node.phase NodePhase.running

abbrev pub is_pending : NodeStatus → Bool
is_pending node = node_phase_eq node.phase NodePhase.pending

unfoldable pub count_running : List NodeStatus → ℕ
count_running [] = 0
count_running (node ∷ nodes) =
    let rest = count_running nodes in if is_running node then suc rest else rest

unfoldable pub phases_of : (String → NodePhase) → List NodeStatus → String → NodePhase
phases_of phases [] = phases
phases_of phases (node ∷ nodes) = phases_of (update phases node.name node.phase) nodes

-- A node that the pass leaves alone.
unfoldable pub pass_over : NodeStatus → Sweep → Sweep
pass_over node s = record s { nodes = s.nodes ++ node ∷ [] }

-- A running node after `syncNodeFromTask`: one that ended gives its slot back at once.
unfoldable pub record_synced : NodeStatus × Bool → Sweep → Sweep
record_synced (node, false) s = record s { nodes = s.nodes ++ node ∷ [] }
record_synced (node, true) s = record {
  nodes = s.nodes ++ node ∷ [];
  phases = update s.phases node.name node.phase;
  running = if is_running node then s.running else s.running - 1;
  changed = true;
}

unfoldable pub record_skipped : NodeStatus → Sweep → Sweep
record_skipped node s = record {
  nodes = s.nodes ++ node ∷ [];
  phases = update s.phases node.name node.phase;
  running = s.running;
  changed = true;
}

-- A node that was started: an adopted task may have ended already, and then takes no slot.
unfoldable pub record_started : NodeStatus × Bool → Sweep → Sweep
record_started (node, ended) s = record {
  nodes = s.nodes ++ node ∷ [];
  phases = update s.phases node.name node.phase;
  running = if ended then s.running else s.running + 1;
  changed = true;
}

-- `wf.Spec.MaxParallel > 0 && running >= wf.Spec.MaxParallel`
abbrev pub slots_taken : ℕ → ℕ → Bool
slots_taken max_parallel running = ltb 0 max_parallel && leb max_parallel running

module _ {S : Type 0} (client : Client S) (quote : String → String) (wf : Workflow)
    (graph : Graph) where
  -- What follows `createChildTask`: a conflict ends the pass; another error is returned.
  unfoldable pub after_create :
      NodeStatus → List NodeStatus → Sweep → (Task → Call S Sweep) → Reply Task → Call S Pass
  after_create node rest s k (done child) = do s' ← k child; pure (swept s')
  after_create node rest s k (failed (name_conflict message)) =
      pure (conflict message (s.nodes ++ node ∷ rest) s.changed)
  after_create node rest s k (failed e) = throw e

  unfoldable pub with_child :
      NodeStatus → List NodeStatus → Sweep → (Task → Call S Sweep) → Call S Pass
  unfolding after_create
  with_child node rest s k = do
    created ← attempt (create_child_task client quote wf graph node.name)
    after_create node rest s k created

  -- A running node: its task's end is taken over, or a task that is gone is made again.
  unfoldable pub sync_found : Option Task → NodeStatus → List NodeStatus → Sweep → Call S Pass
  sync_found none node rest s = with_child node rest s (λ child. pure (pass_over node s))
  sync_found (some child) node rest s = do
    now ← client.now
    pure (swept (record_synced (sync_node_from_task now node child) s))

  unfoldable pub sync_running :
      List (String × Task) → NodeStatus → List NodeStatus → Sweep → Call S Pass
  unfolding sync_found
  sync_running children node rest s =
      sync_found (lookup (child_task_name wf.meta.name node.name) children) node rest s

  unfoldable pub visit_running :
      List (String × Task) → NodeStatus → List NodeStatus → Sweep → Call S Pass
  visit_running children node rest s =
      if is_running node then sync_running children node rest s else pure (swept (pass_over node s))

  unfoldable pub start_node : NodeStatus → List NodeStatus → Sweep → Call S Pass
  start_node node rest s = with_child node rest s λ child. do
    now ← client.now
    let marked = mark_node_running now node child
    pure (record_started (sync_node_from_task now marked child) s)

  unfoldable pub skip_node : NodeStatus → String → Sweep → Call S Pass
  skip_node node reason s = do
    now ← client.now
    pure (swept (record_skipped (mark_node_skipped now node reason) s))

  unfoldable pub act_on : NodeAction × String → NodeStatus → List NodeStatus → Sweep → Call S Pass
  act_on (skip, reason) node rest s = skip_node node reason s
  act_on (ready, reason) node rest s =
      if slots_taken wf.spec.max_parallel s.running
      then pure (swept (pass_over node s))
      else start_node node rest s
  act_on (wait, reason) node rest s = pure (swept (pass_over node s))

  unfoldable pub visit_pending : NodeStatus → List NodeStatus → Sweep → Call S Pass
  visit_pending node rest s =
      if is_pending node
      then act_on (decide_node quote graph s.phases node.name) node rest s
      else pure (swept (pass_over node s))

  -- A `for` loop over the nodes, which a conflict ends.
  unfoldable pub after_pass : Pass → (Sweep → Call S Pass) → Call S Pass
  after_pass (swept s) next = next s
  after_pass (conflict message nodes changed) next = pure (conflict message nodes changed)

  unfoldable pub sweep_nodes :
      (NodeStatus → List NodeStatus → Sweep → Call S Pass) → List NodeStatus → Sweep → Call S Pass
  unfolding after_pass
  sweep_nodes visit [] s = pure (swept s)
  sweep_nodes visit (node ∷ rest) s =
      visit node rest s >>= λ pass. after_pass pass (sweep_nodes visit rest)

  unfoldable pub first_sweep : List NodeStatus → Sweep
  first_sweep nodes = record {
    nodes = [];
    phases = phases_of (λ _. NodePhase.unset) nodes;
    running = count_running nodes;
    changed = false;
  }

  -- The second pass starts at the first node again.
  abbrev pub again : Sweep → Sweep
  again s = record s { nodes = [] }

  unfoldable pub both_passes : List (String × Task) → List NodeStatus → Call S Pass
  unfolding after_pass
  both_passes children nodes =
      sweep_nodes (visit_running children) nodes (first_sweep nodes) >>= λ pass.
      after_pass pass (λ s. sweep_nodes visit_pending s.nodes (again s))

  unfoldable pub with_nodes : List NodeStatus → Workflow
  with_nodes nodes = record wf { status = record (wf.status) { nodes = nodes } }

  unfoldable pub close_pass : Pass → Call S (Workflow × Bool)
  close_pass (swept s) = pure (with_nodes s.nodes, s.changed)
  close_pass (conflict message nodes changed) = do
    now ← client.now
    let (failed_wf, written) = fail_workflow now (with_nodes nodes) message
    pure (failed_wf, written || changed)

  unfoldable pub advance_nodes : Call S (Workflow × Bool)
  advance_nodes = do
    children ← list_child_tasks client quote wf
    pass ← both_passes children wf.status.nodes
    close_pass pass
