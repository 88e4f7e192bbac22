-- ===== src/Examples/Http.antt =====
-- Requests of two tenants, and what stands in front of them.
use kube_task.Base.{
  ℕ, suc, ◌<◌, String, String_discrete, true, false, not, ◌&&◌, Option, some, none, List, [], ◌∷◌,
  ◌==◌, All, length, ◌≡◌, refl, arith, pos, negsuc, chars, contains,
}
use kube_task.Api.{Task, TaskPhase, Time, empty_meta, empty_spec, empty_status}
use kube_task.Kube.{done}
use kube_task.Tenant.{tenant_label, label_of, service_account_namespace, service_account_name}
use kube_task.Tenant.Accounts.{service_account_namespace-service_account_name}
use kube_task.Auth.{
  AuthError, ok, UserInfo, ApiKeyBinding, ResourceAttributes, Review, Kubernetes, authorize,
  access_decision, authenticate_key, authenticate_among, authenticate_found, authenticate_binding,
  find_binding, bound_identity,
}
use kube_task.Auth.Decisions.{Allowed, authorize-Allowed, KeyOf, authenticate_key-KeyOf}
use kube_task.Http.Request.{Request, Objects, Body, json}
use kube_task.Http.Statistics.{no_stats, count_tasks, filter_tasks, trend_of}
use kube_task.Http.Statistics.Counts.{
  by_phase, phase_count, count_tasks-filter_tasks, point_of, on_day, executions, point_of-trend_of,
}
use kube_task.Http.Pages.{page_of}
use kube_task.Http.Pages.Windows.{window, first_pages, page_of-first_pages, page_of-negative}
use kube_task.Http.TaskHandler.{task_not_found}
use kube_task.Http.Router.{TaskRoute, Tools, Security, serve_task, guarded}
use kube_task.Http.Router.Guard.{Gate}
use kube_task.Http.Router.Guard.Admission.{Admitted, guarded-Admitted}
use kube_task.Http.Middleware.{Context}
use kube_task.Http.LogHandler.{Pod, Pods, LogQuery, stream}
use kube_task.Examples.Cluster.{cluster}
use kube_task.Examples.Advance.{release}
use kube_task.Http.Isolation.{serve_task-Foreign}
use kube_task.Http.OwnWrites.Labels.{Owned}
use kube_task.Http.OwnWrites.{KeepsOwn, serve_task-keeps}

abbrev pub task_of : String → String → Task
task_of namespace name = record {
  meta = record (empty_meta name ((tenant_label, namespace) ∷ [])) { uid = "u1" };
  spec = empty_spec;
  status = record empty_status { phase = TaskPhase.failed };
}

abbrev three : List ℕ
three = 7 ∷ 8 ∷ 9 ∷ []

page_of-first_pages_example :
    ((p : ℕ) → p < 2 → page_of (pos (suc p)) (pos 2) three ≡ some (window p 2 three))
    × (first_pages 2 2 three ≡ three)
page_of-first_pages_example = page_of-first_pages 2 2 three (omega arith) (omega arith)

page_of-negative_example : page_of (pos 1) (negsuc 4) three ≡ none
page_of-negative_example = page_of-negative 4 three (omega arith)

abbrev two_tasks : List Task
two_tasks = task_of "team-a" "backup" ∷ task_of "team-b" "report" ∷ []

count_tasks-filter_tasks_example :
    ((count_tasks no_stats two_tasks).total ≡ length two_tasks)
    × (phase_count TaskPhase.failed (count_tasks no_stats two_tasks)
        ≡ length (filter_tasks (by_phase TaskPhase.failed) two_tasks))
count_tasks-filter_tasks_example = count_tasks-filter_tasks TaskPhase.failed two_tasks refl

abbrev one_day : Time → String
one_day t = "2026-01-02"

abbrev ran_once : Task
ran_once = record (task_of "team-a" "backup") {
  status = record empty_status {
    execution_history =
        record {
          job_name = "backup-1";
          start_time = pos 1;
          stop_time = pos 2;
          phase = TaskPhase.succeeded;
          exit_code = 0;
        }
        ∷ [];
  };
}

point_of-trend_of_example :
    (point_of one_day "2026-01-02" (trend_of one_day [] (ran_once ∷ []))).total
    ≡ length (on_day one_day "2026-01-02" (executions one_day (ran_once ∷ [])))
point_of-trend_of_example = point_of-trend_of one_day "2026-01-02" (ran_once ∷ [])

-- An API server with one task of `namespace`; the state is the log of the tasks that were written.
abbrev server_of : String → Objects (List Task) Task
server_of namespace = record {
  get = λ name s. (done (task_of namespace "backup"), s);
  list = λ labels s. (done s, s);
  create = λ x s. (done x.object, x.object ∷ s);
  update = λ t s. (done t, t ∷ s);
  update_status = λ t s. (done t, t ∷ s);
  delete = λ t uid s. (done tt, t ∷ s);
}

abbrev tools : Tools (List Task)
tools = record {
  now = λ s. (pos 9, s);
  format_time = λ t. "2026-01-02T00:00:09Z";
  date_of = one_day;
  describe = λ e. "error";
  rejects = λ e. false;
  check_cron = λ schedule. none;
  quote = λ s. s;
}

abbrev by_team_a : Request
by_team_a = record { namespace = "team-a"; name = "backup" }

team_b-Foreign :
    (not ("team-a" == "")
      && not (label_of tenant_label (task_of "team-b" "backup").meta.labels == "team-a"))
    ≡ true
unfolding String_discrete
team_b-Foreign = refl

-- Everything that was written is the tenant's.
abbrev AllOwned : List Task → Type 0
AllOwned = All (λ t. Owned "team-a" t.meta)

server_of-KeepsOwn : KeepsOwn tools (server_of "team-a") "team-a" AllOwned
server_of-KeepsOwn = record {
  now = λ s p. p;
  get = λ name s p. p;
  list = λ labels s h p. p;
  create = λ x s o h p. (o, p);
  update = λ t s o p. (o, p);
  update_status = λ t s o p. (o, p);
  delete = λ t s o p. (o, p);
  labels = λ t u s h. cc;
}

team_a-full : ("team-a" == "") ≡ false
unfolding String_discrete
team_a-full = refl

serve_task-keeps_example :
    AllOwned (serve_task tools (server_of "team-a") TaskRoute.trigger by_team_a []).1
serve_task-keeps_example =
    serve_task-keeps tools (server_of "team-a") by_team_a AllOwned team_a-full server_of-KeepsOwn
      TaskRoute.trigger [] tt

service_account_namespace-service_account_name_example :
    service_account_namespace (service_account_name "team-a" "ci") ≡ "team-a"
unfolding chars contains
service_account_namespace-service_account_name_example =
    service_account_namespace-service_account_name "team-a" "ci" refl refl refl

abbrev ci_binding : ApiKeyBinding
ci_binding = record {
  id = "build-ci";
  sha256 = "9f86";
  namespace = "team-a";
  service_account = "ci";
  uid = "u7";
}

-- A cluster that knows one account and allows everything.
abbrev open_cluster : Kubernetes (List Task)
open_cluster = record {
  token_review = λ audience token s. (Review.nil_review, s);
  access_review = λ user a s.
      (Review.reviewed (record { allowed = true; denied = false; evaluation_error = "" }), s);
  bindings = λ s. (some (ci_binding ∷ []), s);
  account_uid = λ namespace name s. (done "u7", s);
  digest = λ token. "9f86";
}

abbrev ci_user : UserInfo
ci_user = record {
  username = "system:serviceaccount:team-a:ci";
  uid = "u7";
  groups = "system:serviceaccounts" ∷ "system:serviceaccounts:team-a" ∷ "system:authenticated" ∷ [];
  extra = ("kubetask.io/api-key-id", "build-ci" ∷ []) ∷ [];
}

abbrev list_access : ResourceAttributes
list_access = record {
  group = "kubetask.kubetask.io";
  version = "v1";
  resource = "tasks";
  subresource = "";
  verb = "list";
  name = "";
  namespace = "team-a";
}

list_access-granted : (authorize open_cluster ci_user list_access []).0 ≡ none
unfolding authorize access_decision String_discrete chars
list_access-granted = refl

authorize-Allowed_example : Allowed (open_cluster.access_review ci_user list_access []).0
authorize-Allowed_example =
    authorize-Allowed open_cluster ci_user list_access [] list_access-granted

key-accepted : (authenticate_key open_cluster "kubetask" "ktk_test" []).0 ≡ ok ci_user
unfolding authenticate_key authenticate_among authenticate_found authenticate_binding find_binding
    bound_identity String_discrete
key-accepted = refl

authenticate_key-KeyOf_example : KeyOf open_cluster "ktk_test" [] ci_user
authenticate_key-KeyOf_example =
    authenticate_key-KeyOf open_cluster "kubetask" "ktk_test" [] ci_user refl key-accepted

abbrev anonymous : Context
anonymous = record {
  user = none;
  request = record { namespace = ""; name = "backup" };
  authorizes = false;
}

abbrev with_keys : Security
with_keys = record { audience = "kubetask"; has_keys = true; isolates_tenants = true }

guarded-Admitted_example :
    Gate
      (λ s. (false, s))
      (guarded open_cluster
        (λ s. (false, s))
        (λ e s. s)
        with_keys
        "GET /api/v1/tasks/:name"
        ("Bearer ktk_test" ∷ []))
      anonymous
      []
      (Admitted open_cluster
        (λ s. (false, s))
        (λ e s. s)
        with_keys
        "GET /api/v1/tasks/:name"
        ("Bearer ktk_test" ∷ [])
        anonymous.request
        [])
guarded-Admitted_example =
    guarded-Admitted open_cluster (λ s. (false, s)) (λ e s. s) with_keys "GET /api/v1/tasks/:name"
      ("Bearer ktk_test" ∷ []) anonymous []

abbrev pub backup_pod : Pod
backup_pod = record { meta = empty_meta "backup-1-x7" [] }

abbrev one_pod : Pods (List Task)
one_pod = record {
  list = λ namespace name s. (done (backup_pod ∷ []), s);
  open_log = λ pod options s. (done ("line" ∷ []), s);
}

abbrev nobody : UserInfo → ResourceAttributes → List Task → Option AuthError × List Task
nobody user a s = (some AuthError.forbidden, s)

abbrev pub last_hundred : LogQuery
last_hundred = record { tail = none; follow = none; since_seconds = none }

abbrev pub as_ci : Context
as_ci = record { user = some ci_user; request = by_team_a; authorizes = true }

serve_task-Foreign_example :
    (serve_task tools (server_of "team-b") TaskRoute.delete as_ci.request []
      ≡ (json 404 (Body.error task_not_found), []))
    × (stream
          (cluster release (task_of "team-a" "backup"))
          (server_of "team-b")
          one_pod
          (λ e. "error")
          (λ s. (false, s))
          nobody
          last_hundred
          as_ci
          []
        ≡ (json 404 (Body.error task_not_found), []))
serve_task-Foreign_example =
    serve_task-Foreign tools (server_of "team-b") (cluster release (task_of "team-a" "backup"))
      one_pod (λ s. (false, s)) nobody last_hundred as_ci (task_of "team-b" "backup") [] []
      TaskRoute.delete refl refl team_b-Foreign
