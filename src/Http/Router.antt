-- ===== src/Http/Router.antt =====
-- The routes of internal/api/router.go, each with its handler, and the middleware that
-- `apiMiddlewares` of cmd/main.go puts in front of them.
pub mod Guard
pub mod Tables
use kube_task.Base.{ℕ, String, Bool, true, false, Option, none, some, List, [], ◌∷◌, if◌then◌else◌}
use kube_task.Api.{Task, Workflow, Time}
use kube_task.Kube.{Error}
use kube_task.Auth.{
  AuthError, Result, UserInfo, ResourceAttributes, Kubernetes, authenticate_token, authenticate_key,
  authorize,
}
use kube_task.Http.Request.{Submission, Bound, Request, ListQuery, Objects, Response}
use kube_task.Http.TaskHandler.{
  create_task, list_tasks, get_task, update_task, delete_task, trigger_task, suspend_task,
  resume_task, task_stats, task_trend,
}
use kube_task.Http.WorkflowHandler.{create_workflow, list_workflows, get_workflow, delete_workflow}
use kube_task.Http.Middleware.{
  Context, Next, authentication, tenant_isolation, authorization, route_key,
}
use kube_task.Http.Audit.{AuditEvent, audit}

-- A route of a task, with what its handler reads of the request besides the name.
pub data TaskRoute : Type 0 where
  create : Bound (Submission Task) → TaskRoute
  list : ListQuery → TaskRoute
  update : Bound Task → TaskRoute
  get delete trigger suspend resume stats trend : TaskRoute

pub data WorkflowRoute : Type 0 where
  create : Bound (Submission Workflow) → WorkflowRoute
  list : ListQuery → WorkflowRoute
  get delete : WorkflowRoute

abbrev pub task_route_key : TaskRoute → String
task_route_key (TaskRoute.create body) = "POST /api/v1/tasks"
task_route_key (TaskRoute.list query) = "GET /api/v1/tasks"
task_route_key TaskRoute.get = "GET /api/v1/tasks/:name"
task_route_key (TaskRoute.update body) = "PUT /api/v1/tasks/:name"
task_route_key TaskRoute.delete = "DELETE /api/v1/tasks/:name"
task_route_key TaskRoute.trigger = "POST /api/v1/tasks/:name/trigger"
task_route_key TaskRoute.suspend = "POST /api/v1/tasks/:name/suspend"
task_route_key TaskRoute.resume = "POST /api/v1/tasks/:name/resume"
task_route_key TaskRoute.stats = "GET /api/v1/stats"
task_route_key TaskRoute.trend = "GET /api/v1/stats/trend"

abbrev pub workflow_route_key : WorkflowRoute → String
workflow_route_key (WorkflowRoute.create body) = "POST /api/v1/workflows"
workflow_route_key (WorkflowRoute.list query) = "GET /api/v1/workflows"
workflow_route_key WorkflowRoute.get = "GET /api/v1/workflows/:name"
workflow_route_key WorkflowRoute.delete = "DELETE /api/v1/workflows/:name"

abbrev pub log_route_key : String
log_route_key = "GET /api/v1/tasks/:name/logs"

-- What the handlers call, besides the objects: clock, formats, errors and schedules.
pub record Tools (S : Type 0) : Type 0 where
  pub now : S → Time × S
  pub format_time : Time → String
  pub date_of : Time → String
  pub describe : Error → String
  pub rejects : Error → Bool
  pub check_cron : String → Option String
  pub quote : String → String

module _ {S : Type 0} (tools : Tools S) where
  unfoldable pub serve_task : Objects S Task → TaskRoute → Request → S → Response × S
  unfolding create_task list_tasks get_task update_task delete_task trigger_task suspend_task
      resume_task task_stats task_trend
  serve_task objects (TaskRoute.create body) request =
      create_task objects tools.describe tools.check_cron request body
  serve_task objects (TaskRoute.list query) request =
      list_tasks objects tools.describe request query
  serve_task objects TaskRoute.get request = get_task objects tools.describe request
  serve_task objects (TaskRoute.update body) request =
      update_task objects tools.describe tools.check_cron request body
  serve_task objects TaskRoute.delete request = delete_task objects tools.describe request
  serve_task objects TaskRoute.trigger request =
      trigger_task objects tools.describe tools.now tools.format_time request
  serve_task objects TaskRoute.suspend request = suspend_task objects tools.describe request
  serve_task objects TaskRoute.resume request = resume_task objects tools.describe request
  serve_task objects TaskRoute.stats request = task_stats objects tools.describe request
  serve_task objects TaskRoute.trend request =
      task_trend objects tools.describe tools.date_of request

  unfoldable pub serve_workflow : Objects S Workflow → WorkflowRoute → Request → S → Response × S
  unfolding create_workflow list_workflows get_workflow delete_workflow
  serve_workflow objects (WorkflowRoute.create body) request =
      create_workflow objects tools.describe tools.quote tools.rejects request body
  serve_workflow objects (WorkflowRoute.list query) request =
      list_workflows objects tools.describe request query
  serve_workflow objects WorkflowRoute.get request =
      get_workflow objects tools.describe tools.quote request
  serve_workflow objects WorkflowRoute.delete request =
      delete_workflow objects tools.describe request

pub record Security : Type 0 where
  pub audience : String
  pub has_keys : Bool
  pub isolates_tenants : Bool

module _ {S : Type 0} (kubernetes : Kubernetes S) (expired : S → Bool × S)
    (emit : AuditEvent → S → S) where
  -- API keys are read where a file of bindings is configured.
  unfoldable pub authenticator : Security → String → S → Result UserInfo × S
  unfolding authenticate_token authenticate_key
  authenticator security token =
      if security.has_keys
      then authenticate_key kubernetes security.audience token
      else authenticate_token kubernetes security.audience token

  unfoldable pub isolated : Bool → Next expired → Next expired
  unfolding tenant_isolation
  isolated true next = tenant_isolation expired next
  isolated false next = next

  -- `apiMiddlewares`, where authentication is enabled.
  unfoldable pub guarded : Security → (route : String) → List String → Next expired → Next expired
  unfolding authentication isolated audit authorization authenticator authorize
  guarded security route header next = authentication expired (authenticator security) header (
      isolated security.isolates_tenants
        (audit expired emit route (authorization expired (authorize kubernetes) route next)))
