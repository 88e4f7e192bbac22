-- ===== src/Api/Zero.antt =====
-- Go's zero values of the types that the code builds literals of.
use kube_task.Base.{String, none, List, [], pos}
use kube_task.Api.Metadata.{Meta}
use kube_task.Api.Tasks.{TaskType, ConcurrencyPolicy, TaskPhase, TaskSpec, TaskStatus}

abbrev pub empty_spec : TaskSpec
empty_spec = record {
  type = TaskType.other "";
  schedule = "";
  delay = none;
  image = "";
  command = [];
  args = [];
  resources = "";
  env = [];
  backoff_limit = none;
  active_deadline_seconds = none;
  ttl_seconds_after_finished = none;
  concurrency_policy = ConcurrencyPolicy.unknown "";
  suspend = none;
  cluster_name = "";
}

abbrev pub empty_status : TaskStatus
empty_status = record {
  phase = TaskPhase.unset;
  message = "";
  last_schedule_time = none;
  last_start_time = none;
  last_completion_time = none;
  execution_history = [];
  active_jobs = [];
  failed = pos 0;
  succeeded = pos 0;
}

abbrev pub empty_meta : String → List (String × String) → Meta
empty_meta name labels = record {
  name = name;
  namespace = "";
  uid = "";
  generation = 0;
  labels = labels;
  annotations = [];
  owners = [];
  finalizers = [];
  creation_timestamp = pos 0;
  deletion_timestamp = none;
}
