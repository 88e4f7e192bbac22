-- ===== src/Http/TaskHandler.antt =====
-- internal/api/handler/task_handler.go. `describe` stands for the text of an error, `check_cron` for
-- the error of `cron.ParseStandard`, `format_time` for a time in RFC 3339.
use kube_task.Base.{
  String, Bool, true, false, not, Option, none, some, List, [], ◌∷◌, ◌==◌, if◌then◌else◌, insert,
  concat,
}
use kube_task.Api.{Task, TaskSpec, TaskType, Time, empty_meta, empty_spec, empty_status}
use kube_task.Kube.{Error}
use kube_task.Tenant.{tenant_label, label_of, set_namespace}
use kube_task.Http.Request.{
  Submission, Bound, bound, malformed, Request, ListQuery, Objects, Body, Response, json, handle,
  lookup_failure, server_failure,
}
use kube_task.Http.Tenancy.{
  prepare_tenant_create, tenant_list_options, get_tenant_object, tenant_delete_options,
}
use kube_task.Http.Statistics.{filter_tasks, no_stats, count_tasks, trend_of}
use kube_task.Http.Pages.{query_page, query_task_page_size, page_of}

abbrev pub task_not_found : String
task_not_found = "task not found"

abbrev pub bad_request : String → Response
bad_request text = json 400 (Body.error text)

abbrev pub or_default : String → String → String
or_default default text = if text == "" then default else text

-- The defaults that a creation fills in.
abbrev pub default_submission : String → String → Submission Task → Submission Task
default_submission kind prefix s = record s {
  api_version = or_default "kubetask.kubetask.io/v1" s.api_version;
  kind = or_default kind s.kind;
  generate_name = if s.object.meta.name == "" then prefix else s.generate_name;
}

abbrev pub create_failure : (describe : Error → String) → Error → Response
create_failure describe Error.already_exists = json 409 (Body.error "task already exists")
create_failure describe e = json 500 (Body.error (describe e))

abbrev pub created : Task → Response
created t = record { status = 201; body = Body.task t; audit = some (t.meta.name, t.meta.uid) }

-- The text that ends `Create` or `Update` for a schedule that does not parse.
abbrev pub cron_error : (check_cron : String → Option String) → TaskSpec → Option String
cron_error check_cron spec = elim (spec.type) [
  | TaskType.cron ↦ elim (check_cron spec.schedule) [
    | none ↦ none
    | some text ↦ some (concat ("invalid cron expression: " ∷ text ∷ []))
  ]
  | _ ↦ none
]

abbrev pub lacks_type : TaskType → Bool
lacks_type (TaskType.other text) = text == ""
lacks_type _ = false

-- The checks of `Create`, in their order.
abbrev pub create_error : (check_cron : String → Option String) → TaskSpec → Option String
create_error check_cron spec =
    if lacks_type spec.type
    then some "spec.type is required"
    else if spec.image == ""
    then some "spec.image is required"
    else cron_error check_cron spec

abbrev pub with_suspend : Bool → Task → Task
with_suspend suspend t = record t { spec = record (t.spec) { suspend = some suspend } }

-- What `Update` makes of the stored task and of the body: the tenant's label stays.
unfoldable pub merge_update : Task → Task → Task
unfolding set_namespace
merge_update existing updated = record existing {
  spec = updated.spec;
  meta = record (existing.meta) {
    labels = set_namespace updated.meta.labels (label_of tenant_label existing.meta.labels);
    annotations = updated.meta.annotations;
  };
}

unfoldable pub unless_error : {S : Type 0} → Option String → (S → Response × S) → S → Response × S
unless_error (some text) next s = (bad_request text, s)
unless_error none next s = next s

module _ {S : Type 0} (objects : Objects S Task) (describe : Error → String) where
  -- The task of the request, or the answer that there is none.
  unfoldable pub with_task : Request → (Task → S → Response × S) → S → Response × S
  unfolding handle get_tenant_object lookup_failure
  with_task request next =
      handle (get_tenant_object objects (λ t. t.meta) request.namespace request.name)
        (lookup_failure describe task_not_found) next

  module _ (check_cron : String → Option String) where
    unfoldable pub submit : String → Submission Task → S → Response × S
    unfolding handle prepare_tenant_create
    submit namespace s =
        let task = s.object in
        let prepared = record task { meta = prepare_tenant_create namespace task.meta } in
        handle (objects.create (record s { object = prepared })) (create_failure describe)
          (λ t s'. (created t, s'))

    unfoldable pub create_task : Request → Bound (Submission Task) → S → Response × S
    unfolding submit
    create_task request (malformed text) s = (bad_request text, s)
    create_task request (bound submission) s =
        let filled = default_submission "Task" "kubetask-" submission in
        unless_error (create_error check_cron filled.object.spec) (submit request.namespace filled)
          s

    unfoldable pub update_existing : Task → Bound Task → S → Response × S
    unfolding handle merge_update server_failure
    update_existing existing (malformed text) = λ s. (bad_request text, s)
    update_existing existing (bound updated) = unless_error (cron_error check_cron updated.spec) (
        handle (objects.update (merge_update existing updated)) (server_failure describe)
          (λ t s. (json 200 (Body.task t), s)))

    unfoldable pub update_task : Request → Bound Task → S → Response × S
    unfolding with_task update_existing
    update_task request body = with_task request (λ existing. update_existing existing body)

  unfoldable pub list_tasks : Request → ListQuery → S → Response × S
  unfolding handle tenant_list_options server_failure filter_tasks page_of
  list_tasks request query =
      handle (objects.list (tenant_list_options request.namespace)) (server_failure describe)
        (λ tasks s. (page_response tasks, s))
    where
      page_response : List Task → Response
      page_response tasks =
          elim (page_of (query_page query.page) (query_task_page_size query.page_size)
            (filter_tasks query tasks)) [
              | none ↦ json 500 Body.recovered
              | some page ↦ json 200 (Body.task_page page)
            ]

  unfoldable pub get_task : Request → S → Response × S
  unfolding with_task
  get_task request = with_task request (λ t s. (json 200 (Body.task t), s))

  unfoldable pub delete_found : Request → Task → S → Response × S
  unfolding handle tenant_delete_options lookup_failure
  delete_found request t =
      handle (objects.delete t (tenant_delete_options request.namespace t.meta))
        (lookup_failure describe task_not_found)
        (λ _ s. (json 200 (Body.message "task deleted" ""), s))

  -- Without tenants the task is deleted by its name alone.
  unfoldable pub delete_task : Request → S → Response × S
  unfolding with_task delete_found
  delete_task request =
      if not (request.namespace == "")
      then with_task request (delete_found request)
      else delete_found request
          (record { meta = empty_meta request.name []; spec = empty_spec; status = empty_status })

  module _ (now : S → Time × S) (format_time : Time → String) where
    unfoldable pub mark_triggered : Task → S → Response × S
    unfolding handle server_failure
    mark_triggered t =
        handle
          (objects.update_status (record t {
            status = record (t.status) { last_schedule_time = none; active_jobs = [] };
          }))
          (server_failure describe)
          (λ t' s. (json 200 (Body.message "task triggered" t'.meta.name), s))

    unfoldable pub trigger_task : Request → S → Response × S
    unfolding with_task handle mark_triggered server_failure
    trigger_task request = with_task request (λ t s.
        let (at, s') = now s in
        let annotations = insert "kubetask.io/last-trigger" (format_time at) t.meta.annotations in
        handle (objects.update (record t { meta = record (t.meta) { annotations = annotations } }))
          (server_failure describe) mark_triggered s')

  -- `Suspend` and `Resume`.
  unfoldable pub set_suspend : Bool → String → Request → S → Response × S
  unfolding with_task handle server_failure
  set_suspend suspend text request = with_task request (λ t.
      handle (objects.update (with_suspend suspend t)) (server_failure describe)
        (λ t' s. (json 200 (Body.message text t'.meta.name), s)))

  unfoldable pub suspend_task : Request → S → Response × S
  unfolding set_suspend
  suspend_task = set_suspend true "task suspended"

  unfoldable pub resume_task : Request → S → Response × S
  unfolding set_suspend
  resume_task = set_suspend false "task resumed"

  unfoldable pub task_stats : Request → S → Response × S
  unfolding handle tenant_list_options server_failure count_tasks
  task_stats request =
      handle (objects.list (tenant_list_options request.namespace)) (server_failure describe)
        (λ tasks s. (json 200 (Body.stats (count_tasks no_stats tasks)), s))

  unfoldable pub task_trend : (date_of : Time → String) → Request → S → Response × S
  unfolding handle tenant_list_options server_failure trend_of
  task_trend date_of request =
      handle (objects.list (tenant_list_options request.namespace)) (server_failure describe)
        (λ tasks s. (json 200 (Body.trend (trend_of date_of [] tasks)), s))
