-- ===== src/Http/Statistics.antt =====
-- `Stats`, `Trend` and the filters of internal/api/handler/task_handler.go, on the tasks that were
-- listed. `date_of` stands for the day that the format of package time prints.
pub mod Counts
use kube_task.Base.{
  suc, String, Bool, true, not, ◌&&◌, List, [], ◌∷◌, ◌++◌, ◌==◌, if◌then◌else◌, keep, lookup,
  insert, get_or,
}
use kube_task.Api.{Task, TaskType, TaskPhase, WorkflowPhase, Workflow, ExecutionRecord, Time}
use kube_task.Http.Request.{Stats, TrendPoint, ListQuery}

abbrev pub type_text : TaskType → String
type_text TaskType.cron = "Cron"
type_text TaskType.one_time = "OneTime"
type_text TaskType.delay = "Delay"
type_text (TaskType.other text) = text

abbrev pub phase_text : TaskPhase → String
phase_text TaskPhase.unset = ""
phase_text TaskPhase.pending = "Pending"
phase_text TaskPhase.running = "Running"
phase_text TaskPhase.succeeded = "Succeeded"
phase_text TaskPhase.failed = "Failed"
phase_text TaskPhase.suspended = "Suspended"

abbrev pub workflow_phase_text : WorkflowPhase → String
workflow_phase_text WorkflowPhase.unset = ""
workflow_phase_text WorkflowPhase.pending = "Pending"
workflow_phase_text WorkflowPhase.running = "Running"
workflow_phase_text WorkflowPhase.succeeded = "Succeeded"
workflow_phase_text WorkflowPhase.failed = "Failed"

-- An empty filter lets everything pass.
abbrev pub passes : (filter text : String) → Bool
passes filter text = if not (filter == "") then text == filter else true

unfoldable pub filter_tasks : ListQuery → List Task → List Task
filter_tasks query tasks =
    keep
      (λ t.
        passes query.type (type_text t.spec.type) && passes query.phase (phase_text t.status.phase))
      tasks

unfoldable pub filter_workflows : (phase : String) → List Workflow → List Workflow
filter_workflows phase workflows =
    keep (λ w. passes phase (workflow_phase_text w.status.phase)) workflows

abbrev pub no_stats : Stats
no_stats = record {
  total = 0;
  pending = 0;
  running = 0;
  succeeded = 0;
  failed = 0;
  suspended = 0;
  onetime = 0;
  cron = 0;
  delay = 0;
}

unfoldable pub count_phase : TaskPhase → Stats → Stats
count_phase TaskPhase.pending s = record s { pending = suc (s.pending) }
count_phase TaskPhase.running s = record s { running = suc (s.running) }
count_phase TaskPhase.succeeded s = record s { succeeded = suc (s.succeeded) }
count_phase TaskPhase.failed s = record s { failed = suc (s.failed) }
count_phase TaskPhase.suspended s = record s { suspended = suc (s.suspended) }
count_phase TaskPhase.unset s = s

unfoldable pub count_type : TaskType → Stats → Stats
count_type TaskType.cron s = record s { cron = suc (s.cron) }
count_type TaskType.one_time s = record s { onetime = suc (s.onetime) }
count_type TaskType.delay s = record s { delay = suc (s.delay) }
count_type (TaskType.other text) s = s

unfoldable pub count_task : Stats → Task → Stats
unfolding count_phase count_type
count_task s t =
    count_type t.spec.type (count_phase t.status.phase (record s { total = suc (s.total) }))

unfoldable pub count_tasks : Stats → List Task → Stats
unfolding count_task
count_tasks s [] = s
count_tasks s (t ∷ ts) = count_tasks (count_task s t) ts

abbrev pub no_point : TrendPoint
no_point = record { total = 0; succeeded = 0; failed = 0 }

unfoldable pub count_record : TaskPhase → TrendPoint → TrendPoint
count_record TaskPhase.succeeded p = record p {
  total = suc (p.total);
  succeeded = suc (p.succeeded);
}
count_record TaskPhase.failed p = record p { total = suc (p.total); failed = suc (p.failed) }
count_record phase p = record p { total = suc (p.total) }

module _ (date_of : Time → String) where
  unfoldable pub add_record :
      List (String × TrendPoint) → ExecutionRecord → List (String × TrendPoint)
  unfolding count_record
  add_record trend r =
      let date = date_of r.start_time in
      insert date (count_record r.phase (get_or no_point (lookup date trend))) trend

  unfoldable pub add_records :
      List (String × TrendPoint) → List ExecutionRecord → List (String × TrendPoint)
  unfolding add_record
  add_records trend [] = trend
  add_records trend (r ∷ rs) = add_records (add_record trend r) rs

  -- The points by date. The source ranges over a map: their order is not specified there.
  unfoldable pub trend_of : List (String × TrendPoint) → List Task → List (String × TrendPoint)
  unfolding add_records
  trend_of trend [] = trend
  trend_of trend (t ∷ ts) = trend_of (add_records trend t.status.execution_history) ts
