-- ===== src/Http/LogHandler.antt =====
-- internal/api/handler/log_handler.go. The lines of a Pod's log are a list: what is streamed until
-- its end. The headers of the stream are left out.
pub mod Access
use kube_task.Base.{
  String, Bool, not, Option, none, some, List, [], ◌∷◌, ◌==◌, if◌then◌else◌, keep, get_or, concat,
  ltb, ℤ, pos, negsuc, chars, Char, code, nat_eq, ℕ, zero, suc,
}
use kube_task.Api.{Meta, Task}
use kube_task.Kube.{Error, Call, Client, Job}
use kube_task.Tenant.{tenant_label, label_of, list_task_jobs}
use kube_task.Auth.{AuthError, UserInfo, ResourceAttributes}
use kube_task.Http.Request.{Objects, Body, Response, json, handle, server_failure}
use kube_task.Http.Pages.{read_number, atoi}
use kube_task.Http.TaskHandler.{with_task}
use kube_task.Http.Middleware.{Next, authorize_resource}

pub record Pod : Type 0 where
  pub meta : Meta

pub record LogOptions : Type 0 where
  pub container : String
  pub tail_lines : ℤ
  pub follow : Bool
  pub since_seconds : Option ℤ

pub record LogQuery : Type 0 where
  pub tail : Option String
  pub follow : Option String
  pub since_seconds : Option String

-- The calls on Pods, beside those of the client.
pub record Pods (S : Type 0) : Type 0 where
  pub list : (namespace job_name : String) → Call S (List Pod)
  pub open_log : Pod → LogOptions → Call S (List String)

-- `xs[len(xs)-1]`, for a list that has an entry.
unfoldable pub last_of {ℓ} : {A : Type ℓ} → List A → Option A
last_of [] = none
last_of (x ∷ []) = some x
last_of (x ∷ y ∷ ys) = last_of (y ∷ ys)

abbrev pub positive_int : Option ℕ → Option ℤ
positive_int none = none
positive_int (some n) = if ltb n 9223372036854775808 then some (pos n) else none

abbrev pub negative_int : Option ℕ → Option ℤ
negative_int none = none
negative_int (some zero) = some (pos 0)
negative_int (some (suc n)) = if ltb n 9223372036854775808 then some (negsuc n) else none

-- `strconv.ParseInt` in base 10 on 64 bits; nothing is an error.
unfoldable pub parse_int : List Char → Option ℤ
unfolding read_number
parse_int [] = none
parse_int (c ∷ cs) =
    if nat_eq (code c) 45
    then negative_int (read_number cs)
    else if nat_eq (code c) 43
    then positive_int (read_number cs)
    else positive_int (read_number (c ∷ cs))

unfoldable pub log_options : LogQuery → LogOptions
unfolding atoi parse_int chars
log_options query = record {
  container = "task";
  tail_lines = atoi (get_or "100" query.tail);
  follow = get_or "false" query.follow == "true";
  since_seconds = parse_int (chars (get_or "" query.since_seconds));
}

abbrev pub log_access : Pod → ResourceAttributes
log_access pod = record {
  group = "";
  version = "v1";
  resource = "pods";
  subresource = "log";
  verb = "get";
  name = pod.meta.name;
  namespace = pod.meta.namespace;
}

module _ {S : Type 0} (client : Client S) (objects : Objects S Task) (pods : Pods S) where
  -- A tenant's task shows only the Pods that its Job controls.
  unfoldable pub own_pods : Task → Job → List Pod → List Pod
  own_pods task job found =
      if not (label_of tenant_label task.meta.labels == "")
      then keep (λ pod. client.is_controlled_by pod.meta job.meta) found
      else found

  module _ (describe : Error → String) (expired : S → Bool × S)
      (authorize : UserInfo → ResourceAttributes → S → Option AuthError × S)
      (query : LogQuery) where
    unfoldable pub send_log : Pod → S → Response × S
    unfolding handle log_options concat
    send_log pod =
        handle (pods.open_log pod (log_options query))
          (λ e. json 500 (Body.error (concat ("failed to open log stream: " ∷ describe e ∷ []))))
          (λ lines s. (json 200 (Body.log_lines lines), s))

    -- The log of the last Pod, once the access to it is granted.
    unfoldable pub stream_pod : Option Pod → Next expired
    unfolding authorize_resource send_log
    stream_pod none c s = (json 404 (Body.error "no pods found for job"), s)
    stream_pod (some pod) c s =
        authorize_resource expired authorize (log_access pod) (λ _. send_log pod) c s

    unfoldable pub stream_job : Task → Option Job → Next expired
    unfolding handle own_pods last_of stream_pod server_failure
    stream_job task none c s = (json 404 (Body.error "no jobs found for task"), s)
    stream_job task (some job) c s =
        handle (pods.list job.meta.namespace job.meta.name) (server_failure describe)
          (λ found. stream_pod (last_of (own_pods task job found)) c) s

    unfoldable pub stream : Next expired
    unfolding with_task handle list_task_jobs last_of stream_job server_failure
    stream c = with_task objects describe c.request (λ task.
        handle (list_task_jobs client task) (server_failure describe)
          (λ jobs. stream_job task (last_of jobs) c))
