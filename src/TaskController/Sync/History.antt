-- ===== src/TaskController/Sync/History.antt =====
-- The phase, the counters and the history after `syncJobStatus`.
use kube_task.Base.{
  ℕ, suc, zero, ◌-◌, ◌≤◌, String, List, [], ◌∷◌, if◌then◌else◌, length, drop, ◌≡◌, refl, sym, ◌∙◌,
  arith, Option, is_positive,
}
use kube_task.Api.{Time, TaskPhase, TaskStatus, phase_eq-eq}
use kube_task.Kube.{Job}
use kube_task.TaskController.Sync.{
  Syncing, history_limit, count_outcome, store_record, count_job, note_completion, sync_job,
  sync_jobs, trim_history, set_active, set_phase, or_pending, task_status_phase, start_sync,
  sync_status,
}
use kube_task.TaskController.Sync.Active.{active_names, same_names-eq, sync_status-active_jobs}

length-drop : {A : Type 0} (n : ℕ) (xs : List A) → length (drop n xs) ≡ length xs - n
length-drop zero xs = omega arith
length-drop (suc n) [] = omega arith
length-drop (suc n) (x ∷ xs) = omega (arith, length-drop n xs)

trim_history-le : (s : Syncing) → length (trim_history s).status.execution_history ≤ history_limit
unfolding trim_history
trim_history-le s = ground (
  arith,
  length-drop (length s.status.execution_history - history_limit) s.status.execution_history,
)

set_active-execution_history :
    (s : Syncing) → (set_active s).status.execution_history ≡ s.status.execution_history
unfolding set_active
set_active-execution_history s = ground arith

set_phase-execution_history :
    (s : Syncing) → (set_phase s).status.execution_history ≡ s.status.execution_history
unfolding set_phase
set_phase-execution_history s = ground arith

-- `syncJobStatus` leaves at most ten records in the history.
pub sync_status-le_history_limit :
    (st : TaskStatus) (jobs : List (Job × Time))
    → length (sync_status st jobs).status.execution_history ≤ history_limit
unfolding sync_status
sync_status-le_history_limit st jobs =
    let s = trim_history (sync_jobs (start_sync st) jobs) in
    ground (
      arith,
      set_phase-execution_history (set_active s),
      set_active-execution_history s,
      trim_history-le (sync_jobs (start_sync st) jobs),
    )

-- The phase that Jobs and counters give a task whose phase was `p`.
abbrev pub expected_phase : List String → TaskStatus → TaskPhase → TaskPhase
expected_phase (x ∷ xs) st p = TaskPhase.running
expected_phase [] st p =
    if is_positive st.succeeded
    then TaskPhase.succeeded
    else if is_positive st.failed
    then TaskPhase.failed
    else or_pending p

count_job-phase :
    (now : Time) (job : Job) (s : Syncing) → (count_job now job s).status.phase ≡ s.status.phase
unfolding count_job count_outcome store_record
count_job-phase now job s = ground arith

note_completion-phase :
    (t : Option Time) (s : Syncing) → (note_completion t s).status.phase ≡ s.status.phase
unfolding note_completion
note_completion-phase t s = ground arith

sync_job-phase : (s : Syncing) (x : Job × Time) → (sync_job s x).status.phase ≡ s.status.phase
unfolding sync_job
sync_job-phase s (job, now) = ground (
  arith,
  count_job-phase now job s,
  note_completion-phase job.completion_time (count_job now job s),
)

sync_jobs-phase :
    (s : Syncing) (jobs : List (Job × Time)) → (sync_jobs s jobs).status.phase ≡ s.status.phase
unfolding sync_jobs
sync_jobs-phase s [] = refl
sync_jobs-phase s (x ∷ jobs) = sync_jobs-phase (sync_job s x) jobs ∙ sync_job-phase s x

trim_history-phase : (s : Syncing) → (trim_history s).status.phase ≡ s.status.phase
unfolding trim_history
trim_history-phase s = ground arith

set_active-phase : (s : Syncing) → (set_active s).status.phase ≡ s.status.phase
unfolding set_active
set_active-phase s = ground arith

set_active-jobs : (s : Syncing) → (set_active s).active ≡ s.active
unfolding set_active
set_active-jobs s = ground arith

phase-set_phase : (s : Syncing) → (set_phase s).status.phase ≡ task_status_phase s.status s.active
unfolding set_phase
phase-set_phase s = ground (arith, phase_eq-eq (task_status_phase s.status s.active) s.status.phase)

counters-set_phase :
    (s : Syncing)
    → ((set_phase s).status.succeeded ≡ s.status.succeeded)
      × ((set_phase s).status.failed ≡ s.status.failed)
unfolding set_phase
counters-set_phase s = ground arith

active_jobs-set_phase : (s : Syncing) → (set_phase s).status.active_jobs ≡ s.status.active_jobs
unfolding set_phase
active_jobs-set_phase s = ground arith

active_jobs-set_active : (s : Syncing) → (set_active s).active ≡ (set_active s).status.active_jobs
unfolding set_active
active_jobs-set_active s = ground (arith, same_names-eq s.status.active_jobs s.active)

task_status_phase_lem :
    (st : TaskStatus) (active : List String)
    → task_status_phase st active ≡ expected_phase active st st.phase
unfolding task_status_phase
task_status_phase_lem st [] = refl
task_status_phase_lem st (x ∷ xs) = refl

-- After `syncJobStatus` a task is running while it has active Jobs. Otherwise it succeeded if any
-- Job ever did, failed if one did and none succeeded, and else keeps its phase, pending if it has
-- none.
pub sync_status-phase :
    (st : TaskStatus) (jobs : List (Job × Time))
    → (sync_status st jobs).status.phase
      ≡ expected_phase (active_names jobs) (sync_status st jobs).status st.phase
unfolding sync_status start_sync
sync_status-phase st jobs =
    let done = sync_jobs (start_sync st) jobs in
    let s = set_active (trim_history done) in
    let kept : s.status.phase ≡ st.phase =
      set_active-phase (trim_history done)
      ∙ trim_history-phase done
      ∙ sync_jobs-phase (start_sync st) jobs in
    let active : s.active ≡ active_names jobs =
      active_jobs-set_active (trim_history done)
      ∙ sym (active_jobs-set_phase s)
      ∙ sync_status-active_jobs st jobs in
    ground (
      arith,
      phase-set_phase s,
      counters-set_phase s,
      task_status_phase_lem s.status s.active,
      kept,
      active,
    )
