-- ===== src/Http/Middleware.antt =====
-- internal/api/middleware: what a request passes before its handler runs. `expired` stands for
-- `ctx.Err() != nil` under the deadline of a check. The headers of an answer are left out.
use kube_task.Base.{
  ℕ, String, Bool, true, false, Option, none, some, List, [], ◌∷◌, ◌==◌, if◌then◌else◌, nat_eq,
  lookup, concat, map,
}
use kube_task.Auth.{AuthError, Result, ok, err, UserInfo, ResourceAttributes}
use kube_task.Tenant.{service_account_namespace}
use kube_task.Http.Bearer.{bearer_token}
use kube_task.Http.Request.{Request, Body, Response, json}

-- What the middleware keeps for a request in gin's context and in the request's own.
pub record Context : Type 0 where
  pub user : Option UserInfo
  pub request : Request
  pub authorizes : Bool

abbrev pub status_text : ℕ → String
status_text status =
    if nat_eq status 401
    then "Unauthorized"
    else if nat_eq status 403
    then "Forbidden"
    else "Service Unavailable"

abbrev pub reject : ℕ → Response
reject status = json status (Body.error (status_text status))

pub record Permission : Type 0 where
  pub resource : String
  pub verb : String
  pub subresource : String

abbrev pub on_tasks : String → Permission
on_tasks verb = record { resource = "tasks"; verb = verb; subresource = "" }

abbrev pub on_task_status : String → Permission
on_task_status verb = record { resource = "tasks"; verb = verb; subresource = "status" }

abbrev pub on_workflows : String → Permission
on_workflows verb = record { resource = "workflows"; verb = verb; subresource = "" }

abbrev pub route_permissions : List (String × List Permission)
route_permissions =
    ("POST /api/v1/tasks", on_tasks "create" ∷ [])
    ∷ ("GET /api/v1/tasks", on_tasks "list" ∷ [])
    ∷ ("GET /api/v1/tasks/:name", on_tasks "get" ∷ [])
    ∷ ("PUT /api/v1/tasks/:name", on_tasks "get" ∷ on_tasks "update" ∷ [])
    ∷ ("DELETE /api/v1/tasks/:name", on_tasks "delete" ∷ [])
    ∷ (
      "POST /api/v1/tasks/:name/trigger",
      on_tasks "get" ∷ on_tasks "update" ∷ on_task_status "update" ∷ [],
    )
    ∷ ("POST /api/v1/tasks/:name/suspend", on_tasks "get" ∷ on_tasks "update" ∷ [])
    ∷ ("POST /api/v1/tasks/:name/resume", on_tasks "get" ∷ on_tasks "update" ∷ [])
    ∷ ("GET /api/v1/tasks/:name/logs", on_tasks "get" ∷ [])
    ∷ ("GET /api/v1/stats", on_tasks "list" ∷ [])
    ∷ ("GET /api/v1/stats/trend", on_tasks "list" ∷ [])
    ∷ ("POST /api/v1/workflows", on_workflows "create" ∷ [])
    ∷ ("GET /api/v1/workflows", on_workflows "list" ∷ [])
    ∷ ("GET /api/v1/workflows/:name", on_workflows "get" ∷ [])
    ∷ ("DELETE /api/v1/workflows/:name", on_workflows "get" ∷ on_workflows "delete" ∷ [])
    ∷ []

pub record AuditOperation : Type 0 where
  pub kind : String
  pub action : String

abbrev pub operation : (kind action : String) → AuditOperation
operation kind action = record { kind = kind; action = action }

abbrev pub audit_operations : List (String × AuditOperation)
audit_operations =
    ("POST /api/v1/tasks", operation "Task" "Create")
    ∷ ("PUT /api/v1/tasks/:name", operation "Task" "Update")
    ∷ ("DELETE /api/v1/tasks/:name", operation "Task" "Delete")
    ∷ ("POST /api/v1/tasks/:name/trigger", operation "Task" "Trigger")
    ∷ ("POST /api/v1/tasks/:name/suspend", operation "Task" "Suspend")
    ∷ ("POST /api/v1/tasks/:name/resume", operation "Task" "Resume")
    ∷ ("POST /api/v1/workflows", operation "Workflow" "Create")
    ∷ ("DELETE /api/v1/workflows/:name", operation "Workflow" "Delete")
    ∷ []

-- The route of a request: its method and the pattern of its path.
abbrev pub route_key : (method path : String) → String
route_key method path = concat (method ∷ " " ∷ path ∷ [])

abbrev pub attributes_of : Context → Permission → ResourceAttributes
attributes_of c p = record {
  group = "kubetask.kubetask.io";
  version = "v1";
  resource = p.resource;
  subresource = p.subresource;
  verb = p.verb;
  name = c.request.name;
  namespace = c.request.namespace;
}

module _ {S : Type 0} (expired : S → Bool × S) where
  abbrev pub Next : Type 0
  Next = Context → S → Response × S

  -- The answer to the identity that was found, if the deadline has not passed.
  unfoldable pub accept_identity : Result UserInfo → Next → Next
  accept_identity (ok user) next c s = next (record c { user = some user }) s
  accept_identity (err AuthError.unauthenticated) next c s = (reject 401, s)
  accept_identity (err e) next c s = (reject 503, s)

  -- Once the authenticator has answered; `late` says that its time was over.
  unfoldable pub accept_in_time : (late : Bool) → Result UserInfo → Next → Next
  unfolding accept_identity
  accept_in_time true result next c s = (reject 503, s)
  accept_in_time false result next c s = accept_identity result next c s

  unfoldable pub authenticate_header :
      (authenticate : String → S → Result UserInfo × S) → Option String → Next → Next
  unfolding accept_in_time
  authenticate_header authenticate none next c s = (reject 401, s)
  authenticate_header authenticate (some token) next c s =
      let (result, s1) = authenticate token s in
      let (late, s2) = expired s1 in accept_in_time late result next c s2

  unfoldable pub authentication :
      (authenticate : String → S → Result UserInfo × S) → List String → Next → Next
  unfolding bearer_token authenticate_header
  authentication authenticate header = authenticate_header authenticate (bearer_token header)

  -- The request in the namespace of its ServiceAccount.
  unfoldable pub scope_user : Option UserInfo → Next → Next
  unfolding service_account_namespace
  scope_user none next c s = (reject 401, s)
  scope_user (some user) next c s =
      let namespace = service_account_namespace user.username in
      if namespace == ""
      then (reject 401, s)
      else next (record c { request = record (c.request) { namespace = namespace } }) s

  unfoldable pub tenant_isolation : Next → Next
  unfolding scope_user
  tenant_isolation next c s = scope_user c.user next c s

  module _ (authorize : UserInfo → ResourceAttributes → S → Option AuthError × S) where
    -- The answer to a check that was not granted in time; nothing goes on.
    abbrev pub refusal : Bool → Option AuthError → Option ℕ
    refusal late e = if late then some 503 else elim e [
      | none ↦ none
      | some AuthError.unauthenticated ↦ some 401
      | some AuthError.forbidden ↦ some 403
      | some AuthError.unavailable ↦ some 503
    ]

    -- After a check: the answer to a refusal, or what comes next.
    unfoldable pub proceed : Option ℕ → (S → Response × S) → S → Response × S
    proceed (some status) next s = (reject status, s)
    proceed none next s = next s

    unfoldable pub check_access :
        UserInfo → List ResourceAttributes → (S → Response × S) → S → Response × S
    unfolding proceed
    check_access user [] next s = next s
    check_access user (a ∷ rest) next s =
        let (e, s1) = authorize user a s in
        let (late, s2) = expired s1 in proceed (refusal late e) (check_access user rest next) s2

    unfoldable pub check_user : Option UserInfo → List ResourceAttributes → Next → Next
    unfolding check_access
    check_user none attributes next c s = (reject 401, s)
    check_user (some user) attributes next c s = check_access user attributes (next c) s

    unfoldable pub check_resource_access : List ResourceAttributes → Next → Next
    unfolding check_user
    check_resource_access attributes next c = check_user c.user attributes next c

    unfoldable pub require : Option (List Permission) → Next → Next
    unfolding check_resource_access
    require none next c s = (reject 503, s)
    require (some permissions) next c s =
        check_resource_access (map (attributes_of c) permissions)
          (λ c'. next (record c' { authorizes = true })) c s

    unfoldable pub authorization : (route : String) → Next → Next
    unfolding require concat
    authorization route = require (lookup route route_permissions)

    -- `AuthorizeResource`, for a target that a handler finds.
    unfoldable pub authorize_resource : ResourceAttributes → Next → Next
    unfolding check_resource_access
    authorize_resource attributes next c s =
        if c.authorizes then check_resource_access (attributes ∷ []) next c s else next c s
