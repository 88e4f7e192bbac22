-- ===== src/TaskController/Jobs.antt =====
-- What internal/controller/task_controller.go reads of a Job and how it makes one.
pub mod NameBound
use kube_task.Base.{
  ℕ, ◌/◌, Bool, true, false, ◌||◌, ◌&&◌, none, List, [], ◌∷◌, if◌then◌else◌, concat, decimal,
  get_or, pos_part,
}
use kube_task.Api.{Time, Task, TaskPhase, TaskSpec, ExecutionRecord, empty_meta}
use kube_task.Kube.{Client, Job, JobCondition, ConditionType, JobSpec, Reply, done, failed, Error}
use kube_task.Tenant.{task_label, job_namespace}

abbrev pub same_condition : ConditionType → ConditionType → Bool
same_condition ConditionType.complete ConditionType.complete = true
same_condition ConditionType.failed ConditionType.failed = true
same_condition _ _ = false

-- Asked for the two types that have a constant only.
unfoldable pub condition_true : List JobCondition → ConditionType → Bool
condition_true [] type = false
condition_true (c ∷ cs) type = same_condition c.type type && c.is_true || condition_true cs type

-- A Job has ended once it has a terminal condition; its pods may come and go before.
unfoldable pub job_transitioned : Job → Bool
unfolding condition_true
job_transitioned job =
    condition_true job.conditions ConditionType.complete
    || condition_true job.conditions ConditionType.failed

unfoldable pub job_phase : Job → TaskPhase
unfolding condition_true
job_phase job =
    if condition_true job.conditions ConditionType.complete
    then TaskPhase.succeeded
    else if condition_true job.conditions ConditionType.failed
    then TaskPhase.failed
    else TaskPhase.running

unfoldable pub is_terminal_phase : TaskPhase → Bool
is_terminal_phase TaskPhase.succeeded = true
is_terminal_phase TaskPhase.failed = true
is_terminal_phase _ = false

unfoldable pub is_terminal_record : ExecutionRecord → Bool
unfolding is_terminal_phase
is_terminal_record record' = is_terminal_phase record'.phase

-- Seconds since 1970, for an instant after it.
unfoldable pub unix_seconds : Time → ℕ
unix_seconds t = pos_part t / 1000000000

unfoldable pub job_spec : TaskSpec → JobSpec
job_spec spec = record {
  backoff_limit = get_or 3 spec.backoff_limit;
  restart_policy = "Never";
  containers =
      (record {
        name = "task";
        image = spec.image;
        command = spec.command;
        args = spec.args;
        env = spec.env;
        resources = spec.resources;
      })
      ∷ [];
  active_deadline_seconds = spec.active_deadline_seconds;
  ttl_seconds_after_finished = spec.ttl_seconds_after_finished;
}

-- The Job as the code hands it to the API server, before its owner reference.
unfoldable pub new_job : Time → Task → Job
unfolding concat job_spec job_namespace unix_seconds
new_job now task = record {
  meta =
      record (empty_meta (concat (task.meta.name ∷ "-" ∷ decimal (unix_seconds now) ∷ []))
        ((task_label, task.meta.name) ∷ [])) { namespace = job_namespace task };
  spec = job_spec task.spec;
  active = 0;
  completion_time = none;
  conditions = [];
}

module _ {S : Type 0} (client : Client S) where
  unfoldable pub construct_job : Time → Task → Reply Job
  unfolding new_job concat
  construct_job now task =
      elim (client.set_controller_reference task.meta (new_job now task).meta) [
        | done meta ↦ done (record (new_job now task) { meta = meta })
        | failed e ↦
            failed
              (Error.other (concat ("failed to set owner reference: " ∷ client.describe e ∷ [])))
      ]
