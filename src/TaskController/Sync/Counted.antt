-- ===== src/TaskController/Sync/Counted.antt =====
-- `syncJobStatus` and a Job that the history has no final record of.
use kube_task.Base.{
  Bool, Bool-cases, true, false, not, ◌||◌, ◌&&◌, Option, none, some, List, [], ◌∷◌, ◌++◌, ◌≡◌,
  refl, sym, ap, ◌∙◌, inl, inr, arith, ℤ, suc_int32, if◌then◌else◌,
}
use kube_task.Api.{Time, TaskPhase, TaskStatus, ExecutionRecord}
use kube_task.Kube.{Job, JobCondition, ConditionType}
use kube_task.TaskController.Jobs.{
  condition_true, job_transitioned, job_phase, is_terminal_phase, is_terminal_record,
}
use kube_task.TaskController.Sync.{
  Syncing, is_uncounted, count_outcome, record_of, store_record, count_job, note_completion,
  sync_job, sync_jobs, trim_history, set_active, set_phase, start_sync, sync_status,
}
use kube_task.TaskController.Sync.Recorded.{last_record, index_history_lem}

-- The counters of a status.
abbrev pub counters : TaskStatus → ℤ × ℤ
counters st = (st.succeeded, st.failed)

counters-count_job :
    (st : TaskStatus) (now : Time) (job : Job)
    → is_uncounted (last_record job.meta.name st.execution_history) ≡ true
    → counters (count_job now job (start_sync st)).status
      ≡ counters (count_outcome (job_phase job) st)
unfolding count_job store_record start_sync record_of count_outcome
counters-count_job st now job h =
    ground (arith, index_history_lem job.meta.name st.execution_history, h)

counters-count_job_recorded :
    (st : TaskStatus) (now : Time) (job : Job)
    → is_uncounted (last_record job.meta.name st.execution_history) ≡ false
    → counters (count_job now job (start_sync st)).status ≡ counters st
unfolding count_job store_record start_sync record_of
counters-count_job_recorded st now job h =
    ground (arith, index_history_lem job.meta.name st.execution_history, h)

counters-note_completion :
    (t : Option Time) (s : Syncing) → counters (note_completion t s).status ≡ counters s.status
unfolding note_completion
counters-note_completion t s = ground arith

counters-finish :
    (s : Syncing) → counters (set_phase (set_active (trim_history s))).status ≡ counters s.status
unfolding set_phase set_active trim_history
counters-finish s = ground arith

abbrev says_complete : ConditionType → Bool
says_complete ConditionType.complete = true
says_complete _ = false

abbrev says_failed : ConditionType → Bool
says_failed ConditionType.failed = true
says_failed _ = false

-- Some condition of the given type is true.
abbrev pub some_true : (ConditionType → Bool) → List JobCondition → Bool
some_true of [] = false
some_true of (c ∷ cs) = (of c.type && c.is_true) || some_true of cs

-- The Job says that it is complete, or that it failed.
abbrev pub is_complete : Job → Bool
is_complete job = some_true says_complete job.conditions

abbrev pub is_failed : Job → Bool
is_failed job = some_true says_failed job.conditions

abbrev is_final_phase : TaskPhase → Bool
is_final_phase TaskPhase.succeeded = true
is_final_phase TaskPhase.failed = true
is_final_phase _ = false

-- The last record of the Job, if it has one, says that it ended.
abbrev pub has_final_record : Option ExecutionRecord → Bool
has_final_record none = false
has_final_record (some r) = is_final_phase r.phase

-- The counters after a Job, told by whether it is on record as ended, is complete, or has failed.
abbrev pub counted_once : (on_record complete failed : Bool) → TaskStatus → ℤ × ℤ
counted_once true complete failed st = (st.succeeded, st.failed)
counted_once false true failed st = (suc_int32 st.succeeded, st.failed)
counted_once false false true st = (st.succeeded, suc_int32 st.failed)
counted_once false false false st = (st.succeeded, st.failed)

condition_true-complete :
    (cs : List JobCondition) → condition_true cs ConditionType.complete ≡ some_true says_complete cs
unfolding condition_true
condition_true-complete [] = refl
condition_true-complete (c ∷ cs) = ground (arith, condition_true-complete cs)

condition_true-failed :
    (cs : List JobCondition) → condition_true cs ConditionType.failed ≡ some_true says_failed cs
unfolding condition_true
condition_true-failed [] = refl
condition_true-failed (c ∷ cs) = ground (arith, condition_true-failed cs)

is_uncounted-eq-not : (o : Option ExecutionRecord) → is_uncounted o ≡ not (has_final_record o)
unfolding is_uncounted is_terminal_record is_terminal_phase
is_uncounted-eq-not none = refl
is_uncounted-eq-not (some r) = ground arith

counters-count_outcome :
    (complete failed : Bool) (st : TaskStatus)
    → (complete || failed) ≡ true
    → counters (
        count_outcome
          (if complete
            then TaskPhase.succeeded
            else if failed
            then TaskPhase.failed
            else TaskPhase.running)
          st)
      ≡ counted_once false complete failed st
unfolding count_outcome
counters-count_outcome true failed st h = refl
counters-count_outcome false true st h = refl
counters-count_outcome false false st h = absurd cc

-- What the loop does to the counters at one Job.
counters-sync_job :
    (st : TaskStatus) (now : Time) (job : Job) (on_record : Bool)
    → has_final_record (last_record job.meta.name st.execution_history) ≡ on_record
    → job_transitioned job ≡ true
    → counters (count_job now job (start_sync st)).status
      ≡ counted_once on_record (is_complete job) (is_failed job) st
unfolding job_phase job_transitioned
counters-sync_job st now job true h ended =
    counters-count_job_recorded st now job (is_uncounted-eq-not _ ∙ ap not h)
counters-sync_job st now job false h ended =
    let p = condition_true-complete job.conditions in
    let q = condition_true-failed job.conditions in
    counters-count_job st now job (is_uncounted-eq-not _ ∙ ap not h)
    ∙ rw (p, q)
        (counters-count_outcome (is_complete job) (is_failed job) st (rw (sym p, sym q) ended))

counted_once-neither :
    (on_record complete failed : Bool) (st : TaskStatus)
    → (complete || failed) ≡ false
    → counters st ≡ counted_once on_record complete failed st
counted_once-neither true complete failed st h = refl
counted_once-neither false true failed st h = absurd cc
counted_once-neither false false true st h = absurd cc
counted_once-neither false false false st h = refl

not_ended : (job : Job) → job_transitioned job ≡ false → (is_complete job || is_failed job) ≡ false
unfolding job_transitioned
not_ended job h =
    rw (sym (condition_true-complete job.conditions), sym (condition_true-failed job.conditions)) h

-- For any status and any one Job listed, `syncJobStatus` counts a success exactly if the Job is
-- complete and a failure exactly if it has failed and is not complete, and neither where the last
-- record of the Job in the history says already that it ended.
pub sync_status_counts :
    (st : TaskStatus) (now : Time) (job : Job)
    → counters (sync_status st ((job, now) ∷ [])).status
      ≡ counted_once
          (has_final_record (last_record job.meta.name st.execution_history))
          (is_complete job)
          (is_failed job)
          st
unfolding sync_status sync_jobs sync_job
sync_status_counts st now job = elim (Bool-cases (job_transitioned job)) [
  | inl ended ↦ rw ended (
      counters-finish (note_completion job.completion_time (count_job now job (start_sync st)))
      ∙ counters-note_completion job.completion_time (count_job now job (start_sync st))
      ∙ counters-sync_job st now job _ refl ended)
  | inr runs ↦ rw runs (
      counters-finish (record (start_sync st) { active = [] ++ job.meta.name ∷ [] })
      ∙ counted_once-neither _ (is_complete job) (is_failed job) st (not_ended job runs))
]
