-- ===== src/Http/Isolation.antt =====
-- The tenants of internal/api/handler: what a request sees and writes of other tenants' objects.
use kube_task.Base.{String, Bool, Option, true, false, not, ◌&&◌, ◌==◌, ◌≡◌, refl, ap, ◌∙◌}
use kube_task.Api.{Meta, Task}
use kube_task.Kube.{Client, Error, done, failed, Call, and_then}
use kube_task.Tenant.{tenant_label, label_of}
use kube_task.Http.Request.{
  Request, Objects, Body, Response, json, after_call, handle, lookup_failure,
}
use kube_task.Http.Tenancy.{visible, get_tenant_object}
use kube_task.Http.TaskHandler.{
  with_task, task_not_found, delete_task, get_task, update_task, trigger_task, set_suspend,
  suspend_task, resume_task,
}
use kube_task.Auth.{AuthError, UserInfo, ResourceAttributes}
use kube_task.Http.Middleware.{Context}
use kube_task.Http.LogHandler.{Pods, LogQuery, stream}
use kube_task.Http.Router.{TaskRoute, Tools, serve_task}

-- The object is another tenant's.
abbrev Foreign : String → Meta → Type 0
Foreign namespace meta =
    (not (namespace == "") && not (label_of tenant_label meta.labels == namespace)) ≡ true

module _ {S A : Type 0} where
  handle-failed :
      (call : Call S A) (on_error : Error → Response) (next : A → S → Response × S) (s t : S)
      (e : Error)
      → call s ≡ (failed e, t)
      → handle call on_error next s ≡ (on_error e, t)
  unfolding handle after_call
  handle-failed call on_error next s t e h = ap (λ x. after_call on_error next x.0 x.1) h

  get_tenant_object-Foreign :
      (objects : Objects S A) (meta_of : A → Meta) (namespace name : String) (a : A) (s t : S)
      → objects.get name s ≡ (done a, t)
      → Foreign namespace (meta_of a)
      → get_tenant_object objects meta_of namespace name s ≡ (failed Error.not_found, t)
  unfolding get_tenant_object visible
  get_tenant_object-Foreign objects meta_of namespace name a s t h f =
      ap (λ x. and_then x.0 (visible objects meta_of namespace) x.1) h ∙ rw f refl

module _ {S : Type 0} (tools : Tools S) where
  -- The routes that name a task.
  abbrev names_task : TaskRoute → Bool
  names_task (TaskRoute.create body) = false
  names_task (TaskRoute.list query) = false
  names_task TaskRoute.stats = false
  names_task TaskRoute.trend = false
  names_task _ = true

  module _ (objects : Objects S Task) (request : Request) (a : Task) (s t : S) where
    with_task-Foreign :
        (next : Task → S → Response × S)
        → objects.get request.name s ≡ (done a, t)
        → Foreign request.namespace a.meta
        → with_task objects tools.describe request next s
          ≡ (json 404 (Body.error task_not_found), t)
    unfolding with_task lookup_failure
    with_task-Foreign next h f =
        handle-failed (get_tenant_object objects (λ x. x.meta) request.namespace request.name)
          (lookup_failure tools.describe task_not_found) next s t Error.not_found
          (get_tenant_object-Foreign objects (λ x. x.meta) request.namespace request.name a s t h f)

    with_tenant : (b c : Bool) → (b && c) ≡ true → b ≡ true
    with_tenant true c h = refl
    with_tenant false c h = absurd cc

    route-Foreign :
        (route : TaskRoute)
        → names_task route ≡ true
        → objects.get request.name s ≡ (done a, t)
        → Foreign request.namespace a.meta
        → serve_task tools objects route request s ≡ (json 404 (Body.error task_not_found), t)
    unfolding serve_task get_task update_task delete_task trigger_task suspend_task resume_task
        set_suspend
    route-Foreign (TaskRoute.create body) n h f = absurd cc
    route-Foreign (TaskRoute.list query) n h f = absurd cc
    route-Foreign TaskRoute.stats n h f = absurd cc
    route-Foreign TaskRoute.trend n h f = absurd cc
    route-Foreign TaskRoute.get n h f = with_task-Foreign _ h f
    route-Foreign (TaskRoute.update body) n h f = with_task-Foreign _ h f
    route-Foreign TaskRoute.delete n h f =
        rw
          (with_tenant (not (request.namespace == ""))
            (not (label_of tenant_label a.meta.labels == request.namespace)) f)
          (with_task-Foreign _ h f)
    route-Foreign TaskRoute.trigger n h f = with_task-Foreign _ h f
    route-Foreign TaskRoute.suspend n h f = with_task-Foreign _ h f
    route-Foreign TaskRoute.resume n h f = with_task-Foreign _ h f

-- Where the task of the request carries another label than the request's tenant, each route that
-- names a task, the one for its log included, answers 404 and does no more than the read.
pub serve_task-Foreign :
    {S : Type 0} (tools : Tools S) (objects : Objects S Task) (client : Client S) (pods : Pods S)
    (expired : S → Bool × S) (authorize : UserInfo → ResourceAttributes → S → Option AuthError × S)
    (query : LogQuery) (c : Context) (a : Task) (s t : S) (route : TaskRoute)
    → names_task tools route ≡ true
    → objects.get c.request.name s ≡ (done a, t)
    → Foreign c.request.namespace a.meta
    → (serve_task tools objects route c.request s ≡ (json 404 (Body.error task_not_found), t))
      × (stream client objects pods tools.describe expired authorize query c s
          ≡ (json 404 (Body.error task_not_found), t))
unfolding stream
serve_task-Foreign tools objects client pods expired authorize query c a s t route n h f = (
  route-Foreign tools objects c.request a s t route n h f,
  with_task-Foreign tools objects c.request a s t _ h f,
)
