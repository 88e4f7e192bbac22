-- ===== src/TaskController/Reconcile.antt =====
-- `Reconcile` of internal/controller/task_controller.go. Logging is left out.
pub mod Guards
use kube_task.Base.{String, Bool, false, not, Option, none, some, ltb, len, if◌then◌else◌}
use kube_task.Api.{Time, Task, TaskType, TaskPhase, phase_eq}
use kube_task.Dag.{max_task_name_length}
use kube_task.Kube.{
  Client, Call, done, failed, not_found, pure, throw, attempt, ◌>>=◌, ◌>>◌, CtrlResult, no_requeue,
}
use kube_task.TaskController.Handlers.{
  task_finalizer, handle_deletion, handle_suspend, handle_name_too_long, handle_one_time,
  handle_cron, handle_delay,
}

abbrev pub is_suspended : Option Bool → Bool
is_suspended none = false
is_suspended (some b) = b

module _ {S : Type 0} (client : Client S) (parse_time : String → Option Time)
    (parse_cron : String → Option (Time → Time)) where
  unfoldable pub by_type : TaskType → Task → Call S CtrlResult
  by_type TaskType.one_time task = handle_one_time client parse_time task
  by_type TaskType.cron task = handle_cron client parse_cron task
  by_type TaskType.delay task = handle_delay client parse_time task
  by_type (TaskType.other t) task = pure no_requeue

  -- A task that is no longer suspended is pending again.
  unfoldable pub resume : Task → Call S Task
  resume task =
      if phase_eq task.status.phase TaskPhase.suspended
      then client.update_task_status (record task {
        status = record (task.status) { phase = TaskPhase.pending; message = "" };
      })
      else pure task

  unfoldable pub reconcile_active : Task → Call S CtrlResult
  reconcile_active task = do
    resumed ← resume task
    if ltb max_task_name_length (len resumed.meta.name)
        then handle_name_too_long client resumed
        else by_type resumed.spec.type resumed

  unfoldable pub add_task_finalizer : Task → Call S CtrlResult
  add_task_finalizer task = do
    client.update_task (record task { meta = client.add_finalizer task.meta task_finalizer })
    pure no_requeue

  unfoldable pub reconcile_live : Task → Call S CtrlResult
  reconcile_live task =
      if not (client.contains_finalizer task.meta task_finalizer)
      then add_task_finalizer task
      else if is_suspended task.spec.suspend
      then handle_suspend client task
      else reconcile_active task

  unfoldable pub reconcile_found : Task → Call S CtrlResult
  reconcile_found task = elim task.meta.deletion_timestamp [
    | some t ↦ handle_deletion client task
    | none ↦ reconcile_live task
  ]

  unfoldable pub reconcile : String → Call S CtrlResult
  reconcile name = do
    found ← attempt (client.get_task name)
    elim found [
      | done task ↦ reconcile_found task
      | failed not_found ↦ pure no_requeue
      | failed e ↦ throw e
    ]
