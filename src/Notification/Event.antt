-- ===== src/Notification/Event.antt =====
-- internal/notification/event.go and the filter of observer.go. `controller_of` stands for
-- `metav1.GetControllerOf`, and `group_of` for the group that `schema.ParseGroupVersion` finds.
-- A text from Kubernetes is valid UTF-8: `utf8.RuneStart` at an index asks for a character boundary.
pub mod Message
use Prim.Native.String.{slice}
use text.Mathlib.Text.{is_char_boundary}
use kube_task.Base.{
  ℕ, zero, suc, String, Bool, true, false, not, ◌&&◌, ◌||◌, Option, none, some, List, [], ◌∷◌, ◌==◌,
  if◌then◌else◌, ltb, len, concat, is_some,
}
use kube_task.Api.{Time, Meta, Owner, Task, TaskType}
use kube_task.Kube.{Client, Job, JobCondition, ConditionType, done, failed}
use kube_task.Tenant.{label_of}

abbrev pub event_failed : String
event_failed = "task.failed"

abbrev pub event_timeout : String
event_timeout = "task.timeout"

abbrev pub message_limit : ℕ
message_limit = 4096

pub record TaskInfo : Type 0 where
  pub name : String
  pub uid : String
  pub type : TaskType

pub record ExecutionInfo : Type 0 where
  pub job_name : String
  pub job_uid : String
  pub namespace : String
  pub reason : String
  pub message : String
  pub message_truncated : Bool

pub record WorkflowInfo : Type 0 where
  pub name : String
  pub uid : String
  pub node : String

pub record Event : Type 0 where
  pub version : String
  pub id : String
  pub type : String
  pub occurred_at : Option Time
  pub observed_at : Time
  pub task : TaskInfo
  pub execution : ExecutionInfo
  pub workflow : Option WorkflowInfo

abbrev pub is_failure : JobCondition → Bool
is_failure c = elim c.type [ ConditionType.failed ↦ c.is_true | _ ↦ false ]

unfoldable pub failure_condition : List JobCondition → Option JobCondition
failure_condition [] = none
failure_condition (c ∷ cs) = if is_failure c then some c else failure_condition cs

-- The last character boundary that is not behind `i`.
unfoldable pub cut_end : String → ℕ → ℕ
cut_end s zero = zero
cut_end s (suc i) = let rest = cut_end s i in if is_char_boundary s (suc i) then suc i else rest

unfoldable pub truncate : ExecutionInfo → ExecutionInfo
unfolding cut_end
truncate e =
    if ltb message_limit (len e.message)
    then record e {
      message = slice e.message 0 (cut_end e.message message_limit);
      message_truncated = true;
    }
    else e

abbrev pub event_type : String → String
event_type reason = if reason == "DeadlineExceeded" then event_timeout else event_failed

module _ (controller_of : Meta → Option Owner) (group_of : String → Option String) where
  unfoldable pub owner_is : Option Owner → String → Bool
  owner_is none kind = false
  owner_is (some owner) kind =
      if not (owner.kind == kind) || owner.uid == "" || owner.name == ""
      then false
      else elim (group_of owner.api_version) [
        | none ↦ false
        | some group ↦ group == "kubetask.kubetask.io"
      ]

  -- The event of a Job that failed, once its condition and its owner are known.
  unfoldable pub failure_event : Time → Job → JobCondition → Owner → Event
  unfolding truncate concat
  failure_event observed job c owner = record {
    version = "1";
    id = concat ("job:" ∷ job.meta.uid ∷ ":failed" ∷ []);
    type = event_type c.reason;
    occurred_at = c.last_transition_time;
    observed_at = observed;
    task = record { name = owner.name; uid = owner.uid; type = TaskType.other "" };
    execution = truncate (record {
      job_name = job.meta.name;
      job_uid = job.meta.uid;
      namespace = job.meta.namespace;
      reason = c.reason;
      message = c.message;
      message_truncated = false;
    });
    workflow = none;
  }

  unfoldable pub snapshot_of : Time → Job → Option JobCondition → Option Owner → Option Event
  unfolding failure_event owner_is
  snapshot_of observed job (some c) (some owner) =
      if job.meta.uid == ""
        || is_some job.meta.deletion_timestamp
        || not (owner_is (some owner) "Task")
      then none
      else some (failure_event observed job c owner)
  snapshot_of observed job _ _ = none

  unfoldable pub snapshot : Job → Time → Option Event
  unfolding snapshot_of failure_condition
  snapshot job observed =
      snapshot_of observed job (failure_condition job.conditions) (controller_of job.meta)

  -- What the event says of the task that is found, and of the workflow that controls it.
  unfoldable pub enrich_with : Task → Event → Event
  unfolding owner_is
  enrich_with task e =
      let typed = record e { task = record (e.task) { type = task.spec.type } } in
      elim (controller_of task.meta) [
        | none ↦ typed
        | some owner ↦
            if owner_is (some owner) "Workflow"
            then record typed {
              workflow = some (record {
                name = owner.name;
                uid = owner.uid;
                node = label_of "kubetask.io/workflow-node" task.meta.labels;
              });
            }
            else typed
      ]

  unfoldable pub enrich : {S : Type 0} → Client S → Event → S → Event × S
  unfolding enrich_with
  enrich client e st =
      let (found, st') = client.get_task e.task.name st in
      elim found [
        | failed err ↦ (e, st')
        | done task ↦
            if not (task.meta.uid == e.task.uid) then (e, st') else (enrich_with task e, st')
      ]

-- Whether an update of a Job is looked at: not if the Job had failed before it.
unfoldable pub observes_update : Job → Job → Bool
unfolding failure_condition
observes_update old new =
    not (old.meta.uid == new.meta.uid && is_some (failure_condition old.conditions))
