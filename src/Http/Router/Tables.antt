-- ===== src/Http/Router/Tables.antt =====
-- The routes of internal/api/router.go in the tables of internal/api/middleware.
use kube_task.Base.{
  String, String_discrete, Bool, not, ◌||◌, ◌==◌, some, List, ◌∷◌, any, lookup, is_some, ◌≡◌, refl,
}
use kube_task.Http.Middleware.{Permission, route_permissions, audit_operations}
use kube_task.Http.Router.{
  TaskRoute, WorkflowRoute, task_route_key, workflow_route_key, log_route_key,
}

-- A permission to change something.
abbrev writes : Permission → Bool
writes p = not (p.verb == "get" || p.verb == "list")

-- The route with this key is registered with at least one permission, and it is audited just if one
-- of them is to change something.
pub record Registered (key : String) : Type 0 where
  pub first : Permission
  pub others : List Permission
  pub listed : lookup key route_permissions ≡ some (first ∷ others)
  pub is_audited : is_some (lookup key audit_operations) ≡ any writes (first ∷ others)

task_route-Registered : (r : TaskRoute) → Registered (task_route_key r)
unfolding String_discrete
task_route-Registered (TaskRoute.create body) = record {
  first = _;
  others = _;
  listed = refl;
  is_audited = refl;
}
task_route-Registered (TaskRoute.list query) = record {
  first = _;
  others = _;
  listed = refl;
  is_audited = refl;
}
task_route-Registered TaskRoute.get = record {
  first = _;
  others = _;
  listed = refl;
  is_audited = refl;
}
task_route-Registered (TaskRoute.update body) = record {
  first = _;
  others = _;
  listed = refl;
  is_audited = refl;
}
task_route-Registered TaskRoute.delete = record {
  first = _;
  others = _;
  listed = refl;
  is_audited = refl;
}
task_route-Registered TaskRoute.trigger = record {
  first = _;
  others = _;
  listed = refl;
  is_audited = refl;
}
task_route-Registered TaskRoute.suspend = record {
  first = _;
  others = _;
  listed = refl;
  is_audited = refl;
}
task_route-Registered TaskRoute.resume = record {
  first = _;
  others = _;
  listed = refl;
  is_audited = refl;
}
task_route-Registered TaskRoute.stats = record {
  first = _;
  others = _;
  listed = refl;
  is_audited = refl;
}
task_route-Registered TaskRoute.trend = record {
  first = _;
  others = _;
  listed = refl;
  is_audited = refl;
}

workflow_route-Registered : (r : WorkflowRoute) → Registered (workflow_route_key r)
unfolding String_discrete
workflow_route-Registered (WorkflowRoute.create body) = record {
  first = _;
  others = _;
  listed = refl;
  is_audited = refl;
}
workflow_route-Registered (WorkflowRoute.list query) = record {
  first = _;
  others = _;
  listed = refl;
  is_audited = refl;
}
workflow_route-Registered WorkflowRoute.get = record {
  first = _;
  others = _;
  listed = refl;
  is_audited = refl;
}
workflow_route-Registered WorkflowRoute.delete = record {
  first = _;
  others = _;
  listed = refl;
  is_audited = refl;
}

log_route-Registered : Registered log_route_key
unfolding String_discrete
log_route-Registered = record { first = _; others = _; listed = refl; is_audited = refl }

-- Every route behind the middleware is in the table with at least one permission, and it is audited
-- exactly if one of its permissions is another than get or list.
pub routes-Registered :
    ((r : TaskRoute) → Registered (task_route_key r))
    × ((r : WorkflowRoute) → Registered (workflow_route_key r))
    × Registered log_route_key
routes-Registered = (task_route-Registered, workflow_route-Registered, log_route-Registered)
