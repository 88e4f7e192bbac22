-- ===== src/TaskController/Reconcile/Guards.antt =====
-- What `Reconcile` of a task does before it looks at the task's type: a deletion and a suspension.
use kube_task.Base.{
  String, true, false, not, Option, none, some, List, [], ◌∷◌, ◌≡◌, refl, ◌∙◌, ap, sym, subst,
  arith, ◌⊎◌, cases-if,
}
use kube_task.Api.{Task, TaskPhase, phase_eq, Time}
use kube_task.Kube.{
  Client, Call, Job, done, failed, not_found, and_then_pure, and_then-eq-done, CtrlResult,
  no_requeue,
}
use kube_task.Tenant.{list_task_jobs}
use kube_task.TaskController.Handlers.{
  task_finalizer, has_jobs, delete_job_of, delete_jobs, remove_task_finalizer, handle_deletion,
  handle_suspend, write_status,
}
use kube_task.TaskController.Reconcile.{
  add_task_finalizer, reconcile_live, reconcile_found, reconcile,
}

module _ {S : Type 0} (client : Client S) where
  -- The API server took the deletion of each Job, or did not find the Job, one after the other; a
  -- Job that is being deleted already is passed over. The states are those before and after.
  pub data Asked : List Job → S → S → Type 0 where
    nothing : (s : S) → Asked [] s s
    marked :
        (job : Job) (t : Time) (jobs : List Job) (s u : S)
        → job.meta.deletion_timestamp ≡ some t
        → Asked jobs s u
        → Asked (job ∷ jobs) s u
    asked :
        (job : Job) (jobs : List Job) (s u : S)
        → job.meta.deletion_timestamp ≡ none
        → ((client.delete_job job s).0 ≡ done tt) ⊎ ((client.delete_job job s).0 ≡ failed not_found)
        → Asked jobs (client.delete_job job s).1 u
        → Asked (job ∷ jobs) s u

  -- A deletion that is done, from `st` on: deletion was asked for every Job that the task has, after
  -- that a list shows none, and then the finalizer was taken off the task.
  pub record NoJobsLeft (task : Task) (st : S) : Type 0 where
    pub jobs : List Job
    pub listed : (list_task_jobs client task st).0 ≡ done jobs
    pub after : S
    pub all_asked : Asked jobs (list_task_jobs client task st).1 after
    pub none_left : (list_task_jobs client task after).0 ≡ done []
    pub updated : Task
    pub released :
        (client.update_task
          (record task { meta = client.remove_finalizer task.meta task_finalizer })
          (list_task_jobs client task after).1).0
        ≡ done updated

  has_jobs-eq-false : (jobs : List Job) → has_jobs jobs ≡ false → jobs ≡ []
  has_jobs-eq-false [] h = refl
  has_jobs-eq-false (j ∷ jobs) h = cc

  -- One deletion that went well.
  delete_job_of-asked :
      (job : Job) (s : S)
      → job.meta.deletion_timestamp ≡ none
      → (delete_job_of client job s).0 ≡ done tt
      → (((client.delete_job job s).0 ≡ done tt) ⊎ ((client.delete_job job s).0 ≡ failed not_found))
        × ((delete_job_of client job s).1 ≡ (client.delete_job job s).1)
  unfolding delete_job_of
  delete_job_of-asked job s alive h = ground (arith, alive)

  delete_job_of-marked :
      (job : Job) (t : Time) (s : S)
      → job.meta.deletion_timestamp ≡ some t
      → delete_job_of client job s ≡ (done tt, s)
  unfolding delete_job_of
  delete_job_of-marked job t s is = rw is refl

  -- By the Job's mark.
  delete_first-Asked :
      (job : Job) (jobs : List Job) (s : S) (mark : Option Time)
      → job.meta.deletion_timestamp ≡ mark
      → (delete_jobs client (job ∷ jobs) s).0 ≡ done tt
      → ((u : S)
          → (delete_jobs client jobs u).0 ≡ done tt
          → Asked jobs u (delete_jobs client jobs u).1)
      → Asked (job ∷ jobs) s (delete_jobs client (job ∷ jobs) s).1
  unfolding delete_jobs
  delete_first-Asked job jobs s (some t) is h more =
      let same = delete_job_of-marked job t s is in
      rw same (Asked.marked job t jobs s _ is (more s (rw same at h)))
  delete_first-Asked job jobs s none is h more =
      let one = delete_job_of client job s in
      let (u, p, q) = and_then-eq-done one.0 _ one.1 h in
      let (went, there) = delete_job_of-asked job s is p in
      rw p (
        subst (λ v. Asked (job ∷ jobs) s (delete_jobs client jobs v).1) (sym there)
          (Asked.asked job jobs s _ is went (more _ (rw there at q))))

  delete_jobs-Asked :
      (jobs : List Job) (s : S)
      → (delete_jobs client jobs s).0 ≡ done tt
      → Asked jobs s (delete_jobs client jobs s).1
  unfolding delete_jobs
  delete_jobs-Asked [] s h = Asked.nothing s
  delete_jobs-Asked (job ∷ jobs) s h =
      delete_first-Asked job jobs s _ refl h (λ u k. delete_jobs-Asked jobs u k)

  -- If `handleDeletion` ends without an error and without asking to be called again, then the API
  -- server took the deletion of each Job that the task had, or did not find it, or the Job was being
  -- deleted already; the list afterwards shows none; and the finalizer was taken off the task.
  pub handle_deletion-NoJobsLeft :
      (task : Task) (st : S)
      → (handle_deletion client task st).0 ≡ done no_requeue
      → NoJobsLeft task st
  unfolding handle_deletion remove_task_finalizer
  handle_deletion-NoJobsLeft task st h =
      let listing = list_task_jobs client task st in
      let (jobs, p, q) = and_then-eq-done listing.0 _ listing.1 h in
      let gone = delete_jobs client jobs listing.1 in
      let (u, p', q') = and_then-eq-done gone.0 _ gone.1 q in
      let again = list_task_jobs client task gone.1 in
      let (left, p'', q'') = and_then-eq-done again.0 _ again.1 q' in
      let empty : has_jobs left ≡ false = ground (arith, q'') in
      let write =
        client.update_task (record task { meta = client.remove_finalizer task.meta task_finalizer })
          again.1 in
      let (updated, p3, q3) = and_then-eq-done write.0 _ write.1 (rw empty at q'') in
      record {
        jobs = jobs;
        listed = p;
        after = gone.1;
        all_asked = delete_jobs-Asked jobs listing.1 p';
        none_left = p'' ∙ ap done (has_jobs-eq-false left empty);
        updated = updated;
        released = p3;
      }

  module _ (parse_time : String → Option Time) (parse_cron : String → Option (Time → Time)) where
    -- What the calls keep that a suspended task may lead to: to get the task, to write its object,
    -- and to write that it is suspended.
    pub record KeptSuspended (P : S → Type 0) : Type 0 where
      pub get_task : (name : String) (s : S) → P s → P (client.get_task name s).1
      pub update_task : (task : Task) (s : S) → P s → P (client.update_task task s).1
      pub update_status :
          (task : Task) (s : S)
          → task.status.phase ≡ TaskPhase.suspended
          → P s
          → P (client.update_task_status task s).1

    reconcile_found_alive :
        (task : Task)
        → task.meta.deletion_timestamp ≡ none
        → reconcile_found client parse_time parse_cron task
          ≡ reconcile_live client parse_time parse_cron task
    unfolding reconcile_found
    reconcile_found_alive task alive =
        ap
          (λ o. elim o as (λ _. Call S CtrlResult) [
            | some t ↦ handle_deletion client task
            | none ↦ reconcile_live client parse_time parse_cron task
          ])
          alive

    reconcile_live-keeps :
        (P : S → Type 0) (task : Task) (s : S)
        → KeptSuspended P
        → task.spec.suspend ≡ some true
        → P s
        → P (reconcile_live client parse_time parse_cron task s).1
    unfolding reconcile_live add_task_finalizer handle_suspend write_status
    reconcile_live-keeps P task s k suspended p =
        cases-if (λ (call : Call S CtrlResult). P (call s).1)
          (not (client.contains_finalizer task.meta task_finalizer))
          (λ absent. and_then_pure P _ no_requeue _ (k.update_task _ s p))
          (λ held. rw suspended (
            cases-if (λ (call : Call S CtrlResult). P (call s).1)
              (not (phase_eq task.status.phase TaskPhase.suspended))
              (λ fresh. and_then_pure P _ no_requeue _ (k.update_status _ s refl p)) (λ known. p)))

    -- `Reconcile` of a task that is not being deleted and whose spec suspends it, on every branch,
    -- errors included: what is kept by getting the task, by writing its object and by writing the
    -- phase Suspended is kept, whatever the calls on Jobs would do.
    pub reconcile_suspended :
        (P : S → Type 0) (name : String) (task : Task) (s : S)
        → KeptSuspended P
        → (client.get_task name s).0 ≡ done task
        → task.meta.deletion_timestamp ≡ none
        → task.spec.suspend ≡ some true
        → P s
        → P (reconcile client parse_time parse_cron name s).1
    unfolding reconcile
    reconcile_suspended P name task s k got alive suspended p =
        rw (got, reconcile_found_alive task alive)
          (reconcile_live-keeps P task _ k suspended (k.get_task name s p))
