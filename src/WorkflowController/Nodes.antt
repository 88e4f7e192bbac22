-- ===== src/WorkflowController/Nodes.antt =====
-- The node state helpers of internal/controller/workflow_controller.go. A function that reads the
-- clock takes the instant as an argument.
pub mod Decide
use kube_task.Base.{
  ℕ, zero, suc, ◌+◌, String, Bool, true, false, not, ◌&&◌, none, some, List, [], ◌∷◌, ◌==◌,
  if◌then◌else◌, concat, get_or,
}
use kube_task.Api.{Time, Task, TaskPhase, WorkflowPhase, NodePhase, NodeStatus, Workflow}
use kube_task.Dag.{Graph, graph_task, graph_deps}

pub data NodeAction : Type 0 where
  wait ready skip : NodeAction

abbrev pub node_phase_eq : NodePhase → NodePhase → Bool
node_phase_eq NodePhase.unset NodePhase.unset = true
node_phase_eq NodePhase.pending NodePhase.pending = true
node_phase_eq NodePhase.running NodePhase.running = true
node_phase_eq NodePhase.succeeded NodePhase.succeeded = true
node_phase_eq NodePhase.failed NodePhase.failed = true
node_phase_eq NodePhase.skipped NodePhase.skipped = true
node_phase_eq _ _ = false

abbrev pub workflow_phase_eq : WorkflowPhase → WorkflowPhase → Bool
workflow_phase_eq WorkflowPhase.unset WorkflowPhase.unset = true
workflow_phase_eq WorkflowPhase.pending WorkflowPhase.pending = true
workflow_phase_eq WorkflowPhase.running WorkflowPhase.running = true
workflow_phase_eq WorkflowPhase.succeeded WorkflowPhase.succeeded = true
workflow_phase_eq WorkflowPhase.failed WorkflowPhase.failed = true
workflow_phase_eq _ _ = false

-- What the loop of `decideNode` gathers: the first dependency that did not succeed, and how many
-- have not ended.
pub record Gathered : Type 0 where
  pub blocked_by : String
  pub waiting : ℕ

unfoldable pub gather_dep : NodePhase → String → Gathered → Gathered
gather_dep NodePhase.succeeded dep g = g
gather_dep NodePhase.failed dep g = if g.blocked_by == "" then record g { blocked_by = dep } else g
gather_dep NodePhase.skipped dep g = if g.blocked_by == "" then record g { blocked_by = dep } else g
gather_dep _ dep g = record g { waiting = g.waiting + 1 }

unfoldable pub gather_deps : (String → NodePhase) → List String → Gathered → Gathered
unfolding gather_dep
gather_deps phases [] g = g
gather_deps phases (dep ∷ deps) g = gather_deps phases deps (gather_dep (phases dep) dep g)

abbrev is_zero_ℕ : ℕ → Bool
is_zero_ℕ zero = true
is_zero_ℕ (suc n) = false

module _ (quote : String → String) where
  unfoldable pub choose_action : Bool → Gathered → NodeAction × String
  unfolding concat
  choose_action run_on_failure g =
      if run_on_failure
      then (if not (is_zero_ℕ g.waiting)
          then (wait, "")
          else if g.blocked_by == ""
          then (skip, "all dependencies succeeded")
          else (ready, ""))
      else (if not (g.blocked_by == "")
          then (skip, concat ("dependency " ∷ quote g.blocked_by ∷ " did not succeed" ∷ []))
          else if not (is_zero_ℕ g.waiting)
          then (wait, "")
          else (ready, ""))

  unfoldable pub decide_node : Graph → (String → NodePhase) → String → NodeAction × String
  unfolding choose_action gather_deps graph_task graph_deps
  decide_node graph phases name = elim (graph_task graph name) [
    | none ↦ (wait, "")
    | some task ↦
        choose_action task.run_on_failure
          (gather_deps phases (graph_deps graph name) (record { blocked_by = ""; waiting = 0 }))
  ]

-- The node keeps a start that it has; else it starts when its task did, or now.
unfoldable pub mark_node_running : Time → NodeStatus → Task → NodeStatus
mark_node_running now node task = record node {
  phase = NodePhase.running;
  task_name = task.meta.name;
  message = "";
  start_time = some (get_or (get_or now task.status.last_start_time) node.start_time);
}

unfoldable pub mark_node_skipped : Time → NodeStatus → String → NodeStatus
mark_node_skipped now node reason = record node {
  phase = NodePhase.skipped;
  message = reason;
  completion_time = some (get_or now node.completion_time);
}

unfoldable pub task_completion_time : Time → Task → Time
task_completion_time now task = get_or now task.status.last_completion_time

unfoldable pub task_failure_message : Task → String
unfolding concat
task_failure_message task =
    if not (task.status.message == "")
    then task.status.message
    else concat ("task " ∷ task.meta.name ∷ " failed" ∷ [])

sync_phase : Time → NodeStatus → Task → TaskPhase → NodeStatus × Bool
unfolding task_completion_time task_failure_message
sync_phase now node task TaskPhase.succeeded =
    if node_phase_eq node.phase NodePhase.succeeded then (node, false) else (
      record node {
        phase = NodePhase.succeeded;
        completion_time = some (task_completion_time now task);
        message = "";
      },
      true,
    )
sync_phase now node task TaskPhase.failed =
    if node_phase_eq node.phase NodePhase.failed && node.message == task_failure_message task
    then (node, false)
    else (
      record node {
        phase = NodePhase.failed;
        completion_time = some (task_completion_time now task);
        message = task_failure_message task;
      },
      true,
    )
sync_phase now node task _ = (node, false)

-- The node after its task's end, and whether it changed.
unfoldable pub sync_node_from_task : Time → NodeStatus → Task → NodeStatus × Bool
unfolding sync_phase
sync_node_from_task now node task = sync_phase now node task task.status.phase

unfoldable pub fail_workflow : Time → Workflow → String → Workflow × Bool
fail_workflow now wf message =
    if workflow_phase_eq wf.status.phase WorkflowPhase.failed && wf.status.message == message
    then (wf, false)
    else (
      record wf {
        status = record (wf.status) {
          phase = WorkflowPhase.failed;
          message = message;
          completion_time = some (get_or now wf.status.completion_time);
        };
      },
      true,
    )

unfoldable pub is_workflow_terminal : WorkflowPhase → Bool
is_workflow_terminal WorkflowPhase.succeeded = true
is_workflow_terminal WorkflowPhase.failed = true
is_workflow_terminal _ = false

is_nil {ℓ} : {A : Type ℓ} → List A → Bool
is_nil [] = true
is_nil (x ∷ xs) = false

unfoldable pub can_retry_after_validation_failure : Workflow → Bool
unfolding is_nil
can_retry_after_validation_failure wf =
    workflow_phase_eq wf.status.phase WorkflowPhase.failed && is_nil wf.status.nodes
