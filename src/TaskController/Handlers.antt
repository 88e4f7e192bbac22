-- ===== src/TaskController/Handlers.antt =====
-- The handlers of internal/controller/task_controller.go. `parse_cron` stands for
-- `cron.ParseStandard` with the schedule's `Next`, `parse_time` for `time.Parse` with RFC 3339.
use kube_task.Base.{
  ℕ, suc, String, Bool, true, false, not, ◌&&◌, Option, none, some, List, [], ◌∷◌, ◌++◌, ◌==◌,
  if◌then◌else◌, concat, decimal, len, nat_eq, ltb, ℤ, pos, ltb_ℤ, ◌+ℤ◌, ◌-ℤ◌,
}
use kube_task.Api.{Time, Task, TaskType, TaskPhase, phase_eq, TaskStatus, ConcurrencyPolicy}
use kube_task.Dag.{max_task_name_length}
use kube_task.Kube.{
  Client, Call, done, failed, not_found, Job, pure, throw, attempt, ◌>>=◌, ◌>>◌, CtrlResult,
  no_requeue, requeue_in,
}
use kube_task.Tenant.{list_task_jobs}
use kube_task.TaskController.Jobs.{construct_job}
use kube_task.TaskController.Sync.{sync_job_status}
use kube_task.TaskController.Finished.{task_execution_finished}

abbrev pub task_finalizer : String
task_finalizer = "kubetask.kubetask.io/finalizer"

-- Two seconds.
abbrev pub task_cleanup_requeue : ℤ
task_cleanup_requeue = pos 2000000000

abbrev pub has_jobs {ℓ} : {A : Type ℓ} → List A → Bool
has_jobs [] = false
has_jobs (x ∷ xs) = true

unfoldable pub name_too_long_message : String → String
unfolding concat
name_too_long_message name = concat (
    "task name is too long: "
    ∷ decimal (len name)
    ∷ " characters, limit is "
    ∷ decimal max_task_name_length
    ∷ " (derived Job/Pod name would exceed 63 characters)"
    ∷ [])

-- The status after a Job was created.
unfoldable pub started_status : Time → TaskType → String → TaskStatus → TaskStatus
started_status now type job_name st =
    let running = record st {
      phase = TaskPhase.running;
      last_start_time = some now;
      active_jobs = st.active_jobs ++ job_name ∷ [];
    } in
    elim type [ TaskType.cron ↦ record running { last_schedule_time = some now } | _ ↦ running ]

unfoldable pub count_active : List Job → ℕ
count_active [] = 0
count_active (job ∷ jobs) =
    let rest = count_active jobs in if ltb 0 job.active then suc rest else rest

module _ {S : Type 0} (client : Client S) where
  -- A write of the status, and nothing to wait for.
  unfoldable pub write_status : Task → Call S CtrlResult
  write_status task = client.update_task_status task >> pure no_requeue

  unfoldable pub fail_task : Task → String → Call S CtrlResult
  fail_task task message = write_status (record task {
    status = record (task.status) { phase = TaskPhase.failed; message = message };
  })

  unfoldable pub delete_job_of : Job → Call S (Unit {0})
  delete_job_of job = elim job.meta.deletion_timestamp [
    | some t ↦ pure tt
    | none ↦ do
      deleted ← attempt (client.delete_job job)
      elim deleted [ done u ↦ pure tt | failed not_found ↦ pure tt | failed e ↦ throw e ]
  ]

  unfoldable pub delete_jobs : List Job → Call S (Unit {0})
  delete_jobs [] = pure tt
  delete_jobs (job ∷ jobs) = delete_job_of job >> delete_jobs jobs

  unfoldable pub remove_task_finalizer : Task → Call S CtrlResult
  remove_task_finalizer task = do
    client.update_task (record task { meta = client.remove_finalizer task.meta task_finalizer })
    pure no_requeue

  unfoldable pub handle_deletion : Task → Call S CtrlResult
  handle_deletion task = do
    jobs ← list_task_jobs client task
    delete_jobs jobs
    left ← list_task_jobs client task
    if has_jobs left then pure (requeue_in task_cleanup_requeue) else remove_task_finalizer task

  unfoldable pub handle_suspend : Task → Call S CtrlResult
  handle_suspend task =
      if not (phase_eq task.status.phase TaskPhase.suspended)
      then write_status (record task {
        status = record (task.status) {
          phase = TaskPhase.suspended;
          message = "Task is suspended";
        };
      })
      else pure no_requeue

  unfoldable pub handle_name_too_long : Task → Call S CtrlResult
  handle_name_too_long task =
      let message = name_too_long_message task.meta.name in
      if phase_eq task.status.phase TaskPhase.failed && task.status.message == message
      then pure no_requeue
      else fail_task task message

  -- An error of the list counts as no Job.
  unfoldable pub job_exists : Task → Call S Bool
  job_exists task = do
    jobs ← attempt (list_task_jobs client task)
    elim jobs [ done found ↦ pure (has_jobs found) | failed e ↦ pure false ]

  unfoldable pub create_job_and_update_status : Task → Call S CtrlResult
  create_job_and_update_status task = do
    named_at ← client.now
    job ← (λ s. (construct_job client named_at task, s))
    created ← client.create_job job
    now ← client.now
    write_status
        (record task { status = started_status now task.spec.type created.meta.name task.status })

  unfoldable pub delete_active : List Job → Call S (Unit {0})
  delete_active [] = pure tt
  delete_active (job ∷ jobs) = do
    if ltb 0 job.active then (attempt (client.delete_job job) >> pure tt) else pure tt
    delete_active jobs

  unfoldable pub by_policy : ConcurrencyPolicy → List Job → Call S Bool
  by_policy ConcurrencyPolicy.forbid jobs = pure false
  by_policy ConcurrencyPolicy.replace jobs = delete_active jobs >> pure true
  by_policy _ jobs = pure true

  -- Errors of the list and of the deletions are only logged.
  unfoldable pub concurrency_allowed : Task → Call S Bool
  concurrency_allowed task = do
    listed ← attempt (list_task_jobs client task)
    elim listed [
      | failed e ↦ pure true
      | done jobs ↦
          if nat_eq (count_active jobs) 0
          then pure true
          else by_policy task.spec.concurrency_policy jobs
    ]

  module _ (parse_time : String → Option Time) where
    -- A task that runs once, when its time has come.
    unfoldable pub run_once_only : Task → Call S CtrlResult
    run_once_only task = do
      exists ← job_exists task
      if exists
          then (sync_job_status client task >> pure no_requeue)
          else if task_execution_finished parse_time task
          then pure no_requeue
          else create_job_and_update_status task

    unfoldable pub handle_one_time : Task → Call S CtrlResult
    handle_one_time task = run_once_only task

    unfoldable pub handle_delay : Task → Call S CtrlResult
    handle_delay task = elim task.spec.delay [
      | none ↦ fail_task task "Delay task requires spec.delay"
      | some delay ↦ do
        now ← client.now
        let target = task.meta.creation_timestamp +ℤ delay
        if ltb_ℤ now target then pure (requeue_in (target -ℤ now)) else run_once_only task
    ]

  module _ (parse_cron : String → Option (Time → Time)) where
    unfoldable pub schedule_reference : Task → Time
    schedule_reference task = elim task.status.last_schedule_time [
      | none ↦ task.meta.creation_timestamp
      | some t ↦ t
    ]

    unfoldable pub run_schedule : (Time → Time) → Task → Call S CtrlResult
    run_schedule next task = do
      now ← client.now
      let due = next (schedule_reference task)
      if ltb_ℤ now due then pure (requeue_in (due -ℤ now)) else (do
        allowed ← concurrency_allowed task
        if allowed then create_job_and_update_status task else pure (requeue_in (next now -ℤ now)))

    unfoldable pub sync_if_exists : Bool → Task → Call S Task
    sync_if_exists exists task = if exists then sync_job_status client task else pure task

    unfoldable pub handle_cron : Task → Call S CtrlResult
    handle_cron task = do
      exists ← job_exists task
      synced ← sync_if_exists exists task
      elim (parse_cron synced.spec.schedule) [
        | none ↦ fail_task synced (concat ("Invalid cron expression: " ∷ synced.spec.schedule ∷ []))
        | some next ↦ run_schedule next synced
      ]
