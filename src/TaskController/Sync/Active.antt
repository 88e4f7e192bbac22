-- ===== src/TaskController/Sync/Active.antt =====
-- The active Jobs, the phase and the length of the history after `syncJobStatus`.
use kube_task.Base.{
  String, true, List, [], ◌∷◌, ◌++◌, if◌then◌else◌, append_assoc, append-nil, ◌≡◌, refl, sym, ◌∙◌,
  arith, Option,
}
use kube_task.Api.{Time, TaskStatus}
use kube_task.Kube.{Job}
use kube_task.TaskController.Jobs.{job_transitioned}
use kube_task.TaskController.Sync.{
  Syncing, same_names, count_job, note_completion, sync_job, sync_jobs, trim_history, set_active,
  set_phase, start_sync, sync_status,
}

-- The names of the Jobs that have not ended, in the order of the list.
abbrev pub active_names : List (Job × Time) → List String
active_names [] = []
active_names ((job, now) ∷ jobs) =
    let rest = active_names jobs in if job_transitioned job then rest else job.meta.name ∷ rest

pub same_names-eq : (xs ys : List String) → same_names xs ys ≡ true → xs ≡ ys
same_names-eq [] [] h = refl
same_names-eq (x ∷ xs) (y ∷ ys) h = ground (arith, same_names-eq xs ys)
same_names-eq [] (y ∷ ys) h = ground arith
same_names-eq (x ∷ xs) [] h = ground arith

count_job-active : (now : Time) (job : Job) (s : Syncing) → (count_job now job s).active ≡ s.active
unfolding count_job
count_job-active now job s = ground arith

note_completion-active : (t : Option Time) (s : Syncing) → (note_completion t s).active ≡ s.active
unfolding note_completion
note_completion-active t s = ground arith

sync_job-active :
    (s : Syncing) (job : Job) (now : Time) (rest : List String)
    → (sync_job s (job, now)).active ++ rest
      ≡ s.active ++ (if job_transitioned job then rest else job.meta.name ∷ rest)
unfolding sync_job
sync_job-active s job now rest = ground (
  arith,
  count_job-active now job s,
  note_completion-active job.completion_time (count_job now job s),
  append_assoc s.active (job.meta.name ∷ []) rest,
)

sync_jobs-active :
    (s : Syncing) (jobs : List (Job × Time))
    → (sync_jobs s jobs).active ≡ s.active ++ active_names jobs
unfolding sync_jobs
sync_jobs-active s [] = sym (append-nil s.active)
sync_jobs-active s ((job, now) ∷ jobs) =
    sync_jobs-active (sync_job s (job, now)) jobs ∙ sync_job-active s job now (active_names jobs)

trim_history-active : (s : Syncing) → (trim_history s).active ≡ s.active
unfolding trim_history
trim_history-active s = ground arith

set_active-active_jobs : (s : Syncing) → (set_active s).status.active_jobs ≡ s.active
unfolding set_active
set_active-active_jobs s = ground (arith, same_names-eq s.status.active_jobs s.active)

set_phase-active_jobs : (s : Syncing) → (set_phase s).status.active_jobs ≡ s.status.active_jobs
unfolding set_phase
set_phase-active_jobs s = ground arith

-- After `syncJobStatus` the active Jobs are those that have not ended, in the order in which the
-- API server lists them.
pub sync_status-active_jobs :
    (st : TaskStatus) (jobs : List (Job × Time))
    → (sync_status st jobs).status.active_jobs ≡ active_names jobs
unfolding sync_status start_sync
sync_status-active_jobs st jobs =
    let s = sync_jobs (start_sync st) jobs in
    set_phase-active_jobs (set_active (trim_history s))
    ∙ set_active-active_jobs (trim_history s)
    ∙ trim_history-active s
    ∙ sync_jobs-active (start_sync st) jobs
