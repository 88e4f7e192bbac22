-- ===== src/TaskController/Sync/Recorded.antt =====
-- `syncJobStatus` and the Jobs that the history has already.
use kube_task.Base.{
  ℕ, ◌≤◌, String, Bool, true, false, not, ◌&&◌, ◌||◌, List, [], ◌∷◌, ◌++◌, ◌==◌, append_assoc,
  if◌then◌else◌, length, length-append, get_elem?, lookup, insert, lookup-insert, ◌≡◌, refl, arith,
  Option, none, some,
}
use kube_task.Api.{Time, TaskStatus, ExecutionRecord}
use kube_task.Kube.{Job}
use kube_task.TaskController.Jobs.{job_transitioned}
use kube_task.TaskController.Sync.{
  Syncing, history_limit, index_history, recorded_at, is_uncounted, count_job, note_completion,
  sync_job, sync_jobs, trim_history, set_active, set_phase, start_sync, sync_status,
}

-- The last record of a Job.
abbrev pub last_record : String → List ExecutionRecord → Option ExecutionRecord
last_record name [] = none
last_record name (r ∷ rs) = elim (last_record name rs) [
  | some found ↦ some found
  | none ↦ if r.job_name == name then some r else none
]

get_elem?-append :
    (xs ys : List ExecutionRecord) (y : ExecutionRecord)
    → get_elem? (xs ++ y ∷ ys) (length xs) ≡ some y
get_elem?-append [] ys y = refl
get_elem?-append (x ∷ xs) ys y = get_elem?-append xs ys y

abbrev or_else : Option ExecutionRecord → Option ExecutionRecord → Option ExecutionRecord
or_else (some r) q = some r
or_else none q = q

index_history_from :
    (name : String) (before rs : List ExecutionRecord) (m : List (String × ℕ))
    → recorded_at (lookup name (index_history (length before) m rs)) (before ++ rs)
      ≡ or_else (last_record name rs) (recorded_at (lookup name m) (before ++ rs))
unfolding index_history
index_history_from name before [] m = refl
index_history_from name before (r ∷ rs) m = ground (
  arith,
  append_assoc before (r ∷ []) rs,
  length-append before (r ∷ []),
  index_history_from name (before ++ r ∷ []) rs (insert r.job_name (length before) m),
  lookup-insert r.job_name name (length before) m,
  get_elem?-append before rs r,
)

-- `historyIndex` finds the last record of a Job.
pub index_history_lem :
    (name : String) (rs : List ExecutionRecord)
    → recorded_at (lookup name (index_history 0 [] rs)) rs ≡ last_record name rs
index_history_lem name rs = ground (arith, index_history_from name [] rs [])

-- Every Job that has ended has a final record.
abbrev pub all_recorded : List ExecutionRecord → List (Job × Time) → Bool
all_recorded history [] = true
all_recorded history ((job, now) ∷ jobs) =
    (not (job_transitioned job) || not (is_uncounted (last_record job.meta.name history)))
    && all_recorded history jobs

record Unchanged (st : TaskStatus) (s : Syncing) : Type 0 where
  history : s.status.execution_history ≡ st.execution_history
  index : s.index ≡ index_history 0 [] st.execution_history
  succeeded : s.status.succeeded ≡ st.succeeded
  failed : s.status.failed ≡ st.failed

note_completion-Unchanged :
    (st : TaskStatus) (t : Option Time) (s : Syncing)
    → Unchanged st s
    → Unchanged st (note_completion t s)
unfolding note_completion
note_completion-Unchanged st t s u = record {
  history = ground (arith, u.history);
  index = ground (arith, u.index);
  succeeded = ground (arith, u.succeeded);
  failed = ground (arith, u.failed);
}

count_job_recorded :
    (st : TaskStatus) (now : Time) (job : Job) (s : Syncing)
    → Unchanged st s
    → is_uncounted (last_record job.meta.name st.execution_history) ≡ false
    → count_job now job s ≡ s
unfolding count_job
count_job_recorded st now job s u h =
    ground (arith, u.history, u.index, index_history_lem job.meta.name st.execution_history, h)

sync_job-Unchanged :
    (st : TaskStatus) (s : Syncing) (job : Job) (now : Time)
    → Unchanged st s
    → (not (job_transitioned job)
        || not (is_uncounted (last_record job.meta.name st.execution_history)))
      ≡ true
    → Unchanged st (sync_job s (job, now))
unfolding sync_job
sync_job-Unchanged st s job now u h =
    elim (job_transitioned job)
        as (λ b.
          (not b || not (is_uncounted (last_record job.meta.name st.execution_history))) ≡ true
          → Unchanged st (
              if not b
              then record s { active = s.active ++ job.meta.name ∷ [] }
              else note_completion job.completion_time (count_job now job s))) [
                | false ↦ λ k. record {
                  history = u.history;
                  index = u.index;
                  succeeded = u.succeeded;
                  failed = u.failed;
                }
                | true ↦ λ k.
                    note_completion-Unchanged st job.completion_time (count_job now job s)
                      (rw (count_job_recorded st now job s u (ground arith)) u)
              ]
      h

sync_jobs-Unchanged :
    (st : TaskStatus) (s : Syncing) (jobs : List (Job × Time))
    → Unchanged st s
    → all_recorded st.execution_history jobs ≡ true
    → Unchanged st (sync_jobs s jobs)
unfolding sync_jobs
sync_jobs-Unchanged st s [] u h = u
sync_jobs-Unchanged st s ((job, now) ∷ jobs) u h =
    sync_jobs-Unchanged st (sync_job s (job, now)) jobs
      (sync_job-Unchanged st s job now u (ground arith)) (ground arith)

trim_history-Unchanged :
    (st : TaskStatus) (s : Syncing)
    → length st.execution_history ≤ history_limit
    → Unchanged st s
    → Unchanged st (trim_history s)
unfolding trim_history
trim_history-Unchanged st s le u = record {
  history = ground (arith, u.history);
  index = ground (arith, u.index);
  succeeded = ground (arith, u.succeeded);
  failed = ground (arith, u.failed);
}

set_active-Unchanged :
    (st : TaskStatus) (s : Syncing) → Unchanged st s → Unchanged st (set_active s)
unfolding set_active
set_active-Unchanged st s u = record {
  history = ground (arith, u.history);
  index = ground (arith, u.index);
  succeeded = ground (arith, u.succeeded);
  failed = ground (arith, u.failed);
}

set_phase-Unchanged : (st : TaskStatus) (s : Syncing) → Unchanged st s → Unchanged st (set_phase s)
unfolding set_phase
set_phase-Unchanged st s u = record {
  history = ground (arith, u.history);
  index = ground (arith, u.index);
  succeeded = ground (arith, u.succeeded);
  failed = ground (arith, u.failed);
}

-- Once every Job that has ended has a final record, and the history has at most ten, `syncJobStatus`
-- counts no Job again and leaves the history as it is.
pub sync_status_recorded :
    (st : TaskStatus) (jobs : List (Job × Time))
    → length st.execution_history ≤ history_limit
    → all_recorded st.execution_history jobs ≡ true
    → ((sync_status st jobs).status.execution_history ≡ st.execution_history)
      × ((sync_status st jobs).status.succeeded ≡ st.succeeded)
      × ((sync_status st jobs).status.failed ≡ st.failed)
unfolding sync_status start_sync
sync_status_recorded st jobs le h =
    let start : Unchanged st (start_sync st) = record {
      history = refl;
      index = refl;
      succeeded = refl;
      failed = refl;
    } in
    let s = sync_jobs (start_sync st) jobs in
    let u = set_phase-Unchanged st (set_active (trim_history s)) (
      set_active-Unchanged st (trim_history s)
        (trim_history-Unchanged st s le (sync_jobs-Unchanged st (start_sync st) jobs start h))) in
    (u.history, u.succeeded, u.failed)
