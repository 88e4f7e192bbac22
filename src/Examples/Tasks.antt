-- ===== src/Examples/Tasks.antt =====
-- The task controller at a task with one Job that has ended and one that runs.
use kube_task.Base.{
  ◌+◌, ◌≤◌, String, true, some, none, List, [], ◌∷◌, ◌≡◌, refl, arith, pos, len, length,
  String_discrete,
}
use kube_task.Api.{Task, TaskPhase, TaskStatus, empty_spec, empty_status, empty_meta, Time}
use kube_task.Kube.{Client, Job, JobCondition, ConditionType, done, no_requeue}
use kube_task.Tenant.{list_task_jobs, own_jobs}
use kube_task.TaskController.Jobs.{job_spec, job_transitioned, new_job}
use kube_task.TaskController.Jobs.NameBound.{new_job-name_le}
use kube_task.TaskController.Sync.{history_limit, sync_status, is_uncounted}
use kube_task.TaskController.Sync.Active.{active_names, sync_status-active_jobs}
use kube_task.TaskController.Sync.History.{
  expected_phase, sync_status-le_history_limit, sync_status-phase,
}
use kube_task.TaskController.Sync.Recorded.{all_recorded, sync_status_recorded}
use kube_task.TaskController.Sync.Counted.{counters, sync_status_counts}
use kube_task.TaskController.Handlers.{
  task_finalizer, handle_deletion, delete_job_of, delete_jobs, remove_task_finalizer,
}
use kube_task.TaskController.Reconcile.{reconcile}
use kube_task.TaskController.Reconcile.Guards.{
  NoJobsLeft, KeptSuspended, handle_deletion-NoJobsLeft, reconcile_suspended,
}
use kube_task.Examples.Cluster.{job_server}
use kube_task.Examples.Advance.{release}

abbrev job_named : String → List JobCondition → Job
job_named name conditions = record {
  meta = empty_meta name [];
  spec = job_spec empty_spec;
  active = 1;
  completion_time = none;
  conditions = conditions;
}

abbrev completed : List JobCondition
completed =
    record {
      type = ConditionType.complete;
      is_true = true;
      reason = "";
      message = "";
      last_transition_time = none;
    }
    ∷ []

abbrev two_jobs : List (Job × Time)
two_jobs = (job_named "backup-1" completed, pos 5) ∷ (job_named "backup-2" [], pos 5) ∷ []

sync_status-active_jobs_example :
    (sync_status empty_status two_jobs).status.active_jobs ≡ active_names two_jobs
sync_status-active_jobs_example = sync_status-active_jobs empty_status two_jobs

sync_status-le_history_limit_example :
    length (sync_status empty_status two_jobs).status.execution_history ≤ history_limit
sync_status-le_history_limit_example = sync_status-le_history_limit empty_status two_jobs

sync_status-phase_example :
    (sync_status empty_status two_jobs).status.phase
    ≡ expected_phase
        (active_names two_jobs)
        (sync_status empty_status two_jobs).status
        TaskPhase.unset
sync_status-phase_example = sync_status-phase empty_status two_jobs

sync_status_counts_example :
    counters (sync_status empty_status ((job_named "backup-1" completed, pos 5) ∷ [])).status
    ≡ (pos 1, pos 0)
sync_status_counts_example =
    sync_status_counts empty_status (pos 5) (job_named "backup-1" completed)

-- The first Job is counted already.
abbrev counted_status : TaskStatus
counted_status = record empty_status {
  succeeded = pos 1;
  execution_history =
      (record {
        job_name = "backup-1";
        start_time = pos 0;
        stop_time = pos 5;
        phase = TaskPhase.succeeded;
        exit_code = 0;
      })
      ∷ [];
}

two_jobs-recorded : all_recorded counted_status.execution_history two_jobs ≡ true
unfolding is_uncounted job_transitioned String_discrete
two_jobs-recorded = refl

sync_status_recorded_example :
    ((sync_status counted_status two_jobs).status.execution_history
      ≡ counted_status.execution_history)
    × ((sync_status counted_status two_jobs).status.succeeded ≡ pos 1)
    × ((sync_status counted_status two_jobs).status.failed ≡ pos 0)
sync_status_recorded_example =
    sync_status_recorded counted_status two_jobs (omega arith) two_jobs-recorded

abbrev backup : Task
backup = record {
  meta = record (empty_meta "backup" []) { finalizers = task_finalizer ∷ [] };
  spec = record empty_spec { suspend = some true };
  status = record empty_status { phase = TaskPhase.suspended };
}

backup-short : len backup.meta.name ≤ 46
backup-short = ground arith

new_job-name_le_example : len (new_job (pos 1700000000000000000) backup).meta.name + 6 ≤ 63
new_job-name_le_example =
    new_job-name_le (pos 1700000000000000000) backup backup-short (omega arith)

-- It holds the suspended task, and a Job of it.
abbrev backup_server : Client (List Job)
backup_server = job_server release backup

abbrev one_job : List Job
one_job = job_named "backup-1" [] ∷ []

abbrev OnlyJob : List Job → Type 0
OnlyJob jobs = jobs ≡ one_job

backup_server-KeptSuspended : KeptSuspended backup_server (λ s. none) (λ s. none) OnlyJob
backup_server-KeptSuspended = record {
  get_task = λ name s p. p;
  update_task = λ task s p. p;
  update_status = λ task s h p. p;
}

reconcile_suspended_example :
    OnlyJob (reconcile backup_server (λ s. none) (λ s. none) "backup" one_job).1
reconcile_suspended_example =
    reconcile_suspended backup_server (λ s. none) (λ s. none) OnlyJob "backup" backup one_job
      backup_server-KeptSuspended refl refl refl refl

backup-deleted : (handle_deletion backup_server backup one_job).0 ≡ done no_requeue
unfolding handle_deletion list_task_jobs own_jobs delete_jobs delete_job_of remove_task_finalizer
    String_discrete
backup-deleted = refl

handle_deletion-NoJobsLeft_example : NoJobsLeft backup_server backup one_job
handle_deletion-NoJobsLeft_example =
    handle_deletion-NoJobsLeft backup_server backup one_job backup-deleted
