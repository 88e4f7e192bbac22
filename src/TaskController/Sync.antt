-- ===== src/TaskController/Sync.antt =====
-- `syncJobStatus` of internal/controller/task_controller.go: the task's status after its Jobs.
pub mod Active
pub mod History
pub mod Recorded
pub mod Counted
use kube_task.Base.{
  ℕ, ◌+◌, ◌-◌, String, Bool, true, false, not, ◌&&◌, Option, none, some, List, [], ◌∷◌, ◌++◌, ◌==◌,
  if◌then◌else◌, length, drop, get_elem?, set, insert, lookup, ltb, suc_int32, is_positive, eqb_ℤ,
}
use kube_task.Api.{Time, Task, TaskPhase, phase_eq, TaskStatus, ExecutionRecord}
use kube_task.Kube.{Client, Call, Job, pure, ◌>>=◌}
use kube_task.Tenant.{list_task_jobs}
use kube_task.TaskController.Jobs.{job_transitioned, job_phase, is_terminal_record}

abbrev pub history_limit : ℕ
history_limit = 10

-- `historyIndex`: where the history has a Job. The last record of a Job counts.
unfoldable pub index_history : ℕ → List (String × ℕ) → List ExecutionRecord → List (String × ℕ)
index_history i m [] = m
index_history i m (r ∷ rs) = index_history (i + 1) (insert r.job_name i m) rs

-- The variables of the loop over the Jobs.
pub record Syncing : Type 0 where
  pub status : TaskStatus
  pub index : List (String × ℕ)
  pub active : List String
  pub dirty : Bool

unfoldable pub record_of : Time → Job → ExecutionRecord
unfolding job_phase
record_of now job = record {
  job_name = job.meta.name;
  start_time = job.meta.creation_timestamp;
  stop_time = now;
  phase = job_phase job;
  exit_code = 0;
}

-- `!recorded || !isTerminalExecutionRecord(history[idx])`
unfoldable pub is_uncounted : Option ExecutionRecord → Bool
unfolding is_terminal_record
is_uncounted none = true
is_uncounted (some r) = not (is_terminal_record r)

unfoldable pub count_outcome : TaskPhase → TaskStatus → TaskStatus
count_outcome TaskPhase.succeeded st = record st { succeeded = suc_int32 st.succeeded }
count_outcome _ st = record st { failed = suc_int32 st.failed }

-- A record takes the place of the Job's unfinished one, or comes last.
unfoldable pub store_record : Option ℕ → ExecutionRecord → Syncing → Syncing
store_record (some i) r s = record s {
  status = record (s.status) { execution_history = set s.status.execution_history i r };
  dirty = true;
}
store_record none r s = record s {
  status = record (s.status) { execution_history = s.status.execution_history ++ r ∷ [] };
  index = insert r.job_name (length s.status.execution_history) s.index;
  dirty = true;
}

-- The record at an index that the map gives.
abbrev pub recorded_at : Option ℕ → List ExecutionRecord → Option ExecutionRecord
recorded_at none history = none
recorded_at (some i) history = get_elem? history i

unfoldable pub count_job : Time → Job → Syncing → Syncing
unfolding record_of is_uncounted count_outcome store_record
count_job now job s =
    let r = record_of now job in
    let slot = lookup job.meta.name s.index in
    if is_uncounted (recorded_at slot s.status.execution_history)
    then store_record slot r (record s { status = count_outcome r.phase s.status })
    else s

-- `LastCompletionTime == nil || !LastCompletionTime.Equal(completionTime)`
abbrev pub is_other_time : Option Time → Time → Bool
is_other_time none t = true
is_other_time (some u) t = not (eqb_ℤ u t)

unfoldable pub note_completion : Option Time → Syncing → Syncing
note_completion none s = s
note_completion (some t) s =
    if is_other_time s.status.last_completion_time t
    then record s { status = record (s.status) { last_completion_time = some t }; dirty = true }
    else s

-- The body of the loop, with the instant at which it asks the clock.
unfoldable pub sync_job : Syncing → Job × Time → Syncing
unfolding count_job note_completion job_transitioned
sync_job s (job, now) =
    if not (job_transitioned job)
    then record s { active = s.active ++ job.meta.name ∷ [] }
    else note_completion job.completion_time (count_job now job s)

unfoldable pub sync_jobs : Syncing → List (Job × Time) → Syncing
unfolding sync_job
sync_jobs s [] = s
sync_jobs s (job ∷ jobs) = sync_jobs (sync_job s job) jobs

-- Only the last ten records are kept.
unfoldable pub trim_history : Syncing → Syncing
trim_history s =
    let history = s.status.execution_history in
    if ltb history_limit (length history)
    then record s {
      status = record (s.status) {
        execution_history = drop (length history - history_limit) history;
      };
      dirty = true;
    }
    else s

abbrev pub same_names : List String → List String → Bool
same_names [] [] = true
same_names (x ∷ xs) (y ∷ ys) = x == y && same_names xs ys
same_names _ _ = false

unfoldable pub active_jobs_changed : TaskStatus → List String → Bool
active_jobs_changed st current = not (same_names st.active_jobs current)

unfoldable pub set_active : Syncing → Syncing
unfolding active_jobs_changed
set_active s =
    if active_jobs_changed s.status s.active
    then record s { status = record (s.status) { active_jobs = s.active }; dirty = true }
    else s

-- `Phase == ""` is the last resort's first case.
abbrev pub or_pending : TaskPhase → TaskPhase
or_pending TaskPhase.unset = TaskPhase.pending
or_pending p = p

unfoldable pub task_status_phase : TaskStatus → List String → TaskPhase
task_status_phase st (x ∷ xs) = TaskPhase.running
task_status_phase st [] =
    if is_positive st.succeeded
    then TaskPhase.succeeded
    else if is_positive st.failed
    then TaskPhase.failed
    else or_pending st.phase

unfoldable pub set_phase : Syncing → Syncing
unfolding task_status_phase
set_phase s =
    let phase = task_status_phase s.status s.active in
    if not (phase_eq phase s.status.phase)
    then record s { status = record (s.status) { phase = phase }; dirty = true }
    else s

unfoldable pub start_sync : TaskStatus → Syncing
unfolding index_history
start_sync st = record {
  status = st;
  index = index_history 0 [] st.execution_history;
  active = [];
  dirty = false;
}

-- The whole computation: the status to write, and whether it has to be written.
unfoldable pub sync_status : TaskStatus → List (Job × Time) → Syncing
unfolding start_sync sync_jobs trim_history set_active set_phase
sync_status st jobs = set_phase (set_active (trim_history (sync_jobs (start_sync st) jobs)))

module _ {S : Type 0} (client : Client S) where
  -- The clock's answers, one for each Job.
  unfoldable pub stamp_jobs : List Job → Call S (List (Job × Time))
  stamp_jobs [] = pure []
  stamp_jobs (job ∷ jobs) = do now ← client.now; rest ← stamp_jobs jobs; pure ((job, now) ∷ rest)

  -- The task is handed back as it then is, beside the result.
  unfoldable pub sync_job_status : Task → Call S Task
  unfolding stamp_jobs sync_status list_task_jobs
  sync_job_status task = do
    jobs ← list_task_jobs client task
    stamped ← stamp_jobs jobs
    let s = sync_status task.status stamped
    let synced = record task { status = s.status }
    if s.dirty then client.update_task_status synced else pure synced
