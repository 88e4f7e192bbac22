-- ===== src/Http/OwnWrites.antt =====
-- The writes of a tenant's request, in internal/api/handler.
pub mod Labels
use kube_task.Base.{
  eq-path, eq_of_path, String, String_discrete, Bool, true, false, not, ◌&&◌, Option, none, some,
  List, [], ◌∷◌, ◌==◌, if◌then◌else◌, insert, get_or, lookup-insert, cases-if, ◌≡◌, refl, sym, ap,
  ◌∙◌, subst, arith,
}
use kube_task.Api.{Meta, Task}
use kube_task.Kube.{Error, Reply, done, failed, Call, and_then, pure, throw}
use kube_task.Tenant.{tenant_label, label_of, set_namespace}
use kube_task.Http.Request.{
  Bound, bound, malformed, Submission, Request, Objects, Response, after_call, handle,
}
use kube_task.Http.Tenancy.{
  prepare_tenant_create, tenant_list_options, visible, get_tenant_object, tenant_delete_options,
}
use kube_task.Http.TaskHandler.{
  with_task, unless_error, submit, update_existing, delete_found, mark_triggered, merge_update,
  create_task, list_tasks, task_stats, task_trend, delete_task, get_task, update_task, trigger_task,
  set_suspend, suspend_task, resume_task,
}
use kube_task.Http.Router.{TaskRoute, Tools, serve_task}
use kube_task.Http.OwnWrites.Labels.{
  Owned, set_namespace-Owned, merge_update-Owned, handle-keeps, visible-Owned, visible-keeps,
}

-- What the calls keep while they write nothing but the tenant's own tasks. An update answers with
-- the labels that it was sent.
pub record KeepsOwn {S : Type 0} (tools : Tools S) (objects : Objects S Task) (namespace : String)
    (P : S → Type 0) : Type 0 where
  pub now : (s : S) → P s → P (tools.now s).1
  pub get : (name : String) (s : S) → P s → P (objects.get name s).1
  pub list :
      (labels : List (String × String)) (s : S)
      → labels ≡ (tenant_label, namespace) ∷ []
      → P s
      → P (objects.list labels s).1
  pub create :
      (x : Submission Task) (s : S)
      → Owned namespace x.object.meta
      → x.object.meta.owners ≡ []
      → P s
      → P (objects.create x s).1
  pub update : (t : Task) (s : S) → Owned namespace t.meta → P s → P (objects.update t s).1
  pub update_status :
      (t : Task) (s : S) → Owned namespace t.meta → P s → P (objects.update_status t s).1
  pub delete :
      (t : Task) (s : S) → Owned namespace t.meta → P s → P (objects.delete t (some t.meta.uid) s).1
  pub labels :
      (t u : Task) (s : S) → (objects.update t s).0 ≡ done u → u.meta.labels ≡ t.meta.labels

module _ {S : Type 0} (tools : Tools S) (objects : Objects S Task) (request : Request)
    (P : S → Type 0) where
  module _ (full : (request.namespace == "") ≡ false)
      (keeps : KeepsOwn tools objects request.namespace P) where
    with_task-keeps :
        (next : Task → S → Response × S) (s : S)
        → P s
        → ((t : Task) (u : S) → Owned request.namespace t.meta → P u → P (next t u).1)
        → P (with_task objects tools.describe request next s).1
    unfolding with_task get_tenant_object
    with_task-keeps next s p more =
        let found = objects.get request.name s in
        let after : P (get_tenant_object objects (λ t. t.meta) request.namespace request.name s).1 =
          subst P (sym (visible-keeps P objects (λ t. t.meta) request.namespace found.0 found.1))
            (keeps.get request.name s p) in
        handle-keeps P (get_tenant_object objects (λ t. t.meta) request.namespace request.name) _
          next s after
          (λ t h.
            more t _
              (visible-Owned P objects (λ t. t.meta) request.namespace found.0 found.1 t full h)
              after)

    update-keeps :
        (on_error : Error → Response) (next : Task → S → Response × S) (t : Task) (s : S)
        → Owned request.namespace t.meta
        → P s
        → ((u : Task) (v : S) → Owned request.namespace u.meta → P v → P (next u v).1)
        → P (handle (objects.update t) on_error next s).1
    update-keeps on_error next t s o p more =
        let after = keeps.update t s o p in
        handle-keeps P (objects.update t) on_error next s after (λ u h.
          more u _
            (subst (λ l. (label_of tenant_label l == request.namespace) ≡ true)
              (sym (keeps.labels t u s h)) o)
            after)

    list-keeps :
        (on_error : Error → Response) (answer : List Task → Response) (s : S)
        → P s
        → P
            (handle
              (objects.list (tenant_list_options request.namespace))
              on_error
              (λ ts t. (answer ts, t))
              s).1
    unfolding tenant_list_options
    list-keeps on_error answer s p =
        let after = keeps.list (tenant_list_options request.namespace) s (rw full refl) p in
        handle-keeps P (objects.list (tenant_list_options request.namespace)) on_error _ s after
          (λ ts h. after)

    unless_error-keeps :
        (e : Option String) (next : S → Response × S) (s : S)
        → P s
        → P (next s).1
        → P (unless_error e next s).1
    unfolding unless_error
    unless_error-keeps (some text) next s p more = p
    unless_error-keeps none next s p more = more

    submit-keeps :
        (x : Submission Task) (s : S)
        → P s
        → P (submit objects tools.describe tools.check_cron request.namespace x s).1
    unfolding submit prepare_tenant_create
    submit-keeps x s p =
        let after =
          keeps.create _ s (set_namespace-Owned request.namespace x.object.meta.labels full)
            (rw full refl) p in
        handle-keeps P (objects.create _) _ _ s after (λ t h. after)

    create_task-keeps :
        (body : Bound (Submission Task)) (s : S)
        → P s
        → P (create_task objects tools.describe tools.check_cron request body s).1
    unfolding create_task
    create_task-keeps (malformed text) s p = p
    create_task-keeps (bound x) s p = unless_error-keeps _ _ s p (submit-keeps _ s p)

    update_existing-keeps :
        (body : Bound Task) (t : Task) (s : S)
        → Owned request.namespace t.meta
        → P s
        → P (update_existing objects tools.describe tools.check_cron t body s).1
    unfolding update_existing
    update_existing-keeps (malformed text) t s o p = p
    update_existing-keeps (bound u) t s o p = unless_error-keeps _ _ s p (
        update-keeps _ _ (merge_update t u) s (merge_update-Owned request.namespace t u full o) p
          (λ v w q h. h))

    delete_found-keeps :
        (t : Task) (s : S)
        → Owned request.namespace t.meta
        → P s
        → P (delete_found objects tools.describe request t s).1
    unfolding delete_found tenant_delete_options
    delete_found-keeps t s o p =
        let after =
          subst (λ u. P (objects.delete t u s).1) (sym (rw full refl)) (keeps.delete t s o p) in
        handle-keeps P (objects.delete t _) _ _ s after (λ u h. after)

    mark_triggered-keeps :
        (t : Task) (s : S)
        → Owned request.namespace t.meta
        → P s
        → P (mark_triggered objects tools.describe tools.now tools.format_time t s).1
    unfolding mark_triggered
    mark_triggered-keeps t s o p =
        let after = keeps.update_status _ s o p in
        handle-keeps P (objects.update_status _) _ _ s after (λ u h. after)

  chosen :
      (b : Bool) (f g : S → Response × S) (s : S)
      → b ≡ false
      → P (f s).1
      → P ((if not b then f else g) s).1
  chosen true f g s h p = absurd cc
  chosen false f g s h p = p

  -- Every route keeps, for a tenant's request, what the calls keep that list the tenant's tasks and
  -- that create, update or delete tasks with the tenant's label only, where an update answers with the
  -- labels it was sent.
  pub serve_task-keeps :
      (request.namespace == "") ≡ false
      → KeepsOwn tools objects request.namespace P
      → (route : TaskRoute) (s : S) → P s
      → P (serve_task tools objects route request s).1
  unfolding serve_task get_task update_task delete_task trigger_task suspend_task resume_task
      set_suspend list_tasks task_stats task_trend
  serve_task-keeps full keeps (TaskRoute.create body) s p = create_task-keeps full keeps body s p
  serve_task-keeps full keeps (TaskRoute.list query) s p = list-keeps full keeps _ _ s p
  serve_task-keeps full keeps TaskRoute.get s p = with_task-keeps full keeps _ s p (λ t u o q. q)
  serve_task-keeps full keeps (TaskRoute.update body) s p =
      with_task-keeps full keeps _ s p (update_existing-keeps full keeps body)
  serve_task-keeps full keeps TaskRoute.delete s p =
      chosen (request.namespace == "") _ _ s full
        (with_task-keeps full keeps _ s p (delete_found-keeps full keeps))
  serve_task-keeps full keeps TaskRoute.trigger s p = with_task-keeps full keeps _ s p (λ t u o q.
      update-keeps full keeps _ _ _ _ o (keeps.now u q) (mark_triggered-keeps full keeps))
  serve_task-keeps full keeps TaskRoute.suspend s p =
      with_task-keeps full keeps _ s p
        (λ t u o q. update-keeps full keeps _ _ _ u o q (λ v w r x. x))
  serve_task-keeps full keeps TaskRoute.resume s p =
      with_task-keeps full keeps _ s p
        (λ t u o q. update-keeps full keeps _ _ _ u o q (λ v w r x. x))
  serve_task-keeps full keeps TaskRoute.stats s p = list-keeps full keeps _ _ s p
  serve_task-keeps full keeps TaskRoute.trend s p = list-keeps full keeps _ _ s p
