-- ===== src/TaskController/Finished.antt =====
-- `taskExecutionFinished` and `taskManuallyTriggeredAfterCompletion` of
-- internal/controller/task_controller.go. `parse_time` stands for `time.Parse` with RFC 3339.
use kube_task.Base.{
  String, Bool, true, false, not, ◌||◌, Option, none, some, List, [], ◌∷◌, ◌==◌, if◌then◌else◌,
  is_some, ltb_ℤ,
}
use kube_task.Api.{Time, Task, TaskStatus}
use kube_task.Tenant.{label_of}
use kube_task.TaskController.Jobs.{is_terminal_phase}

abbrev pub last_trigger : String
last_trigger = "kubetask.io/last-trigger"

abbrev pub first_some : Option Time → Option Time → Option Time
first_some (some t) u = some t
first_some none u = u

-- With nothing to compare to, a trigger counts.
abbrev pub is_after : Time → Option Time → Bool
is_after t none = true
is_after t (some u) = ltb_ℤ u t

abbrev pub has_records {ℓ} : {A : Type ℓ} → List A → Bool
has_records [] = false
has_records (x ∷ xs) = true

module _ (parse_time : String → Option Time) where
  triggered_at : Option Time → TaskStatus → Bool
  triggered_at none st = false
  triggered_at (some t) st = is_after t (first_some st.last_completion_time st.last_start_time)

  unfoldable pub triggered_after_completion : Task → Bool
  unfolding triggered_at
  triggered_after_completion task =
      let raw = label_of last_trigger task.meta.annotations in
      if raw == "" then false else triggered_at (parse_time raw) task.status

  unfoldable pub task_execution_finished : Task → Bool
  unfolding triggered_after_completion is_terminal_phase
  task_execution_finished task =
      if triggered_after_completion task
      then false
      else if not (is_terminal_phase task.status.phase)
      then false
      else is_some task.status.last_completion_time || has_records task.status.execution_history
