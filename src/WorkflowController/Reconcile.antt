-- ===== src/WorkflowController/Reconcile.antt =====
-- `Reconcile`, `handleDeletion`, `markWorkflowFailed` and `reconcileGraph` of
-- internal/controller/workflow_controller.go. Logging is left out.
pub mod Ended
use kube_task.Base.{
  ℕ, ◌+◌, String, Bool, not, ◌||◌, ◌&&◌, none, some, List, [], ◌∷◌, ◌==◌, if◌then◌else◌, concat,
  nat_eq, get_or, pos, ℤ,
}
use kube_task.Api.{Task, WorkflowPhase, Workflow}
use kube_task.Dag.{
  Graph, accepted, rejected, ValidationError, reason_text, build, validate_child_task_names,
}
use kube_task.Kube.{
  Client, Call, done, failed, not_found, pure, throw, attempt, ◌>>=◌, ◌>>◌, CtrlResult, no_requeue,
  requeue_in,
}
use kube_task.WorkflowController.Nodes.{
  workflow_phase_eq, is_workflow_terminal, can_retry_after_validation_failure,
}
use kube_task.WorkflowController.Status.{initialize_status, summarize}
use kube_task.WorkflowController.Children.{list_child_tasks}
use kube_task.WorkflowController.Advance.{advance_nodes}

abbrev pub workflow_finalizer : String
workflow_finalizer = "kubetask.kubetask.io/workflow-finalizer"

-- Two seconds.
abbrev pub workflow_cleanup_requeue : ℤ
workflow_cleanup_requeue = pos 2000000000

unfoldable pub workflow_failure_message : ValidationError → String
unfolding concat reason_text
workflow_failure_message e = concat (reason_text e.reason ∷ ": " ∷ e.message ∷ [])

module _ {S : Type 0} (client : Client S) (quote : String → String) where
  -- How many children remain after one more is deleted or found gone.
  unfoldable pub delete_child : Task → Call S ℕ
  delete_child child = elim child.meta.deletion_timestamp [
    | some t ↦ pure 1
    | none ↦ do
      deleted ← attempt (client.delete_task child.meta.name (some child.meta.uid))
      elim deleted [ done u ↦ pure 1 | failed not_found ↦ pure 0 | failed e ↦ throw e ]
  ]

  unfoldable pub delete_children : List (String × Task) → Call S ℕ
  delete_children [] = pure 0
  delete_children ((name, child) ∷ children) = do
    one ← delete_child child
    more ← delete_children children
    pure (one + more)

  unfoldable pub drop_finalizer : Workflow → Call S CtrlResult
  drop_finalizer wf =
      if client.contains_finalizer wf.meta workflow_finalizer
      then (do
        client.update_workflow
            (record wf { meta = client.remove_finalizer wf.meta workflow_finalizer })
        pure no_requeue)
      else pure no_requeue

  unfoldable pub handle_deletion : Workflow → Call S CtrlResult
  handle_deletion wf = do
    children ← list_child_tasks client quote wf
    remaining ← delete_children children
    if nat_eq remaining 0 then drop_finalizer wf else pure (requeue_in workflow_cleanup_requeue)

  unfoldable pub mark_workflow_failed : Workflow → String → Call S CtrlResult
  mark_workflow_failed wf message =
      if workflow_phase_eq wf.status.phase WorkflowPhase.failed
        && wf.status.message == message
        && nat_eq wf.status.observed_generation wf.meta.generation
      then pure no_requeue
      else (do
        now ← client.now
        client.update_workflow_status (record wf {
          status = record (wf.status) {
            phase = WorkflowPhase.failed;
            message = message;
            observed_generation = wf.meta.generation;
            completion_time = some (get_or now wf.status.completion_time);
          };
        })
        pure no_requeue)

  -- The status is written once, and only if something changed.
  unfoldable pub write_status : Bool → Workflow → Call S CtrlResult
  write_status changed wf =
      if changed then client.update_workflow_status wf >> pure no_requeue else pure no_requeue

  unfoldable pub reconcile_graph : Workflow → Graph → Call S CtrlResult
  reconcile_graph wf graph = do
    start ← client.now
    let (initialized, entered) = initialize_status start wf graph
    advance ← advance_nodes client quote initialized graph
    now ← client.now
    let (summed, ended) = summarize now (advance.0)
    write_status (ended || (advance.1 || entered)) summed

  -- From the check of the spec on.
  unfoldable pub reconcile_spec : Workflow → Call S CtrlResult
  reconcile_spec wf = elim (build quote wf.spec) [
    | rejected e ↦ mark_workflow_failed wf (workflow_failure_message e)
    | accepted graph ↦ elim (validate_child_task_names wf.meta.name graph) [
      | rejected e ↦ mark_workflow_failed wf (workflow_failure_message e)
      | accepted u ↦ reconcile_graph wf graph
    ]
  ]

  unfoldable pub observe_generation : Workflow → Call S CtrlResult
  observe_generation wf = do
    client.update_workflow_status
        (record wf { status = record (wf.status) { observed_generation = wf.meta.generation } })
    pure no_requeue

  unfoldable pub reconcile_live : Workflow → Call S CtrlResult
  reconcile_live wf =
      if not (client.contains_finalizer wf.meta workflow_finalizer)
      then (do
        client.update_workflow
            (record wf { meta = client.add_finalizer wf.meta workflow_finalizer })
        pure no_requeue)
      else if not (is_workflow_terminal wf.status.phase)
      then reconcile_spec wf
      else if nat_eq wf.status.observed_generation wf.meta.generation
      then pure no_requeue
      else if can_retry_after_validation_failure wf
      then reconcile_spec wf
      else observe_generation wf

  unfoldable pub reconcile_found : Workflow → Call S CtrlResult
  reconcile_found wf = elim wf.meta.deletion_timestamp [
    | some t ↦ handle_deletion wf
    | none ↦ reconcile_live wf
  ]

  unfoldable pub reconcile : String → Call S CtrlResult
  reconcile name = do
    found ← attempt (client.get_workflow name)
    elim found [
      | done wf ↦ reconcile_found wf
      | failed not_found ↦ pure no_requeue
      | failed e ↦ throw e
    ]
