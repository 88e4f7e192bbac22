-- ===== src/Examples/Logs.antt =====
-- The log of a Pod, where the state is a trace of what was asked for and opened.
use kube_task.Base.{String, String_discrete, true, false, Option, none, List, [], ◌∷◌, ◌≡◌, refl}
use kube_task.Api.{Task, empty_meta, empty_spec}
use kube_task.Kube.{Client, done}
use kube_task.TaskController.Jobs.{job_spec}
use kube_task.Http.TaskHandler.{with_task}
use kube_task.Http.Request.{Objects, handle, after_call}
use kube_task.Http.Tenancy.{get_tenant_object, visible}
use kube_task.Tenant.{list_task_jobs, own_jobs}
use kube_task.Auth.{AuthError, UserInfo, ResourceAttributes}
use kube_task.Http.Middleware.{
  authorize_resource, check_resource_access, check_user, check_access, proceed,
}
use kube_task.Http.LogHandler.{Pods, stream, stream_job, stream_pod, own_pods, last_of, send_log}
use kube_task.Http.LogHandler.Access.{KeptByLogs, stream-keeps}
use kube_task.Examples.Cluster.{idle_server}
use kube_task.Examples.Advance.{release}
use kube_task.Examples.Http.{task_of, backup_pod, last_hundred, as_ci}

-- What is asked for and done on the way to a log.
data LogEvent : Type 0 where
  granted opened : String → LogEvent

-- Each log was opened right after the access to it was granted.
abbrev Watched : List LogEvent → Type 0
Watched [] = Unit
Watched (LogEvent.granted name ∷ events) = Watched events
Watched (LogEvent.opened name ∷ events) =
    ((rest : List LogEvent) × (events ≡ LogEvent.granted name ∷ rest)) × Watched events

abbrev watched_tasks : Objects (List LogEvent) Task
watched_tasks = record {
  get = λ name s. (done (task_of "team-a" "backup"), s);
  list = λ labels s. (done [], s);
  create = λ x s. (done x.object, s);
  update = λ t s. (done t, s);
  update_status = λ t s. (done t, s);
  delete = λ t uid s. (done tt, s);
}

abbrev watched_client : Client (List LogEvent)
watched_client = record (idle_server release (task_of "team-a" "backup")) {
  list_jobs = λ namespace labels s. (
    done (
        record {
          meta = empty_meta "backup-1" [];
          spec = job_spec empty_spec;
          active = 1;
          completion_time = none;
          conditions = [];
        }
        ∷ []),
    s,
  );
  is_controlled_by = λ object owner. true;
}

abbrev watched_pods : Pods (List LogEvent)
watched_pods = record {
  list = λ namespace name s. (done (backup_pod ∷ []), s);
  open_log = λ pod options s. (done ("line" ∷ []), LogEvent.opened pod.meta.name ∷ s);
}

abbrev watched_grants :
    UserInfo → ResourceAttributes → List LogEvent → Option AuthError × List LogEvent
watched_grants user a s = (none, LogEvent.granted a.name ∷ s)

log_calls-KeptByLogs :
    KeptByLogs watched_client watched_tasks watched_pods
      (λ s. (false, s))
      watched_grants
      Watched
      as_ci.user
log_calls-KeptByLogs = record {
  get = λ name s p. p;
  list_jobs = λ namespace labels s p. p;
  list_pods = λ namespace name s p. p;
  expiry = λ s p. p;
  review = λ u a s p. p;
  open_log = λ pod options s g p. ((g.before, g.now), p);
}

stream-keeps_example :
    Watched
      (stream watched_client watched_tasks watched_pods
        (λ e. "error")
        (λ s. (false, s))
        watched_grants
        last_hundred
        as_ci
        []).1
stream-keeps_example =
    stream-keeps watched_client watched_tasks watched_pods (λ s. (false, s)) watched_grants
      (λ e. "error") last_hundred Watched as_ci refl log_calls-KeptByLogs [] tt

-- In this run the log is opened.
stream_example :
    (stream watched_client watched_tasks watched_pods
      (λ e. "error")
      (λ s. (false, s))
      watched_grants
      last_hundred
      as_ci
      []).1
    ≡ LogEvent.opened "backup-1-x7" ∷ LogEvent.granted "backup-1-x7" ∷ []
unfolding stream with_task handle list_task_jobs own_jobs get_tenant_object visible after_call
    stream_job stream_pod own_pods last_of send_log authorize_resource check_resource_access
    check_user check_access proceed String_discrete
stream_example = refl
