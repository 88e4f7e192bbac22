-- ===== src/Http/LogHandler/Access.antt =====
-- The access to the log of a Pod, in internal/api/handler/log_handler.go, on the whole handler.
use kube_task.Base.{
  String, Bool, true, false, Option, none, some, List, [], ◌∷◌, ◌≡◌, refl, sym, subst, cases-if,
}
use kube_task.Api.{Task}
use kube_task.Kube.{Error, Client, Job, Reply, done, failed, and_then, pure}
use kube_task.Tenant.{list_task_jobs}
use kube_task.Auth.{AuthError, UserInfo, ResourceAttributes}
use kube_task.Http.Request.{Objects, Response}
use kube_task.Http.Tenancy.{get_tenant_object}
use kube_task.Http.TaskHandler.{with_task}
use kube_task.Http.Middleware.{
  Context, refusal, proceed, check_access, check_user, check_resource_access, authorize_resource,
}
use kube_task.Http.OwnWrites.Labels.{handle-keeps, visible-keeps}
use kube_task.Http.LogHandler.{
  Pod, Pods, LogOptions, LogQuery, last_of, own_pods, log_access, log_options, send_log, stream_pod,
  stream_job, stream,
}

module _ {S : Type 0} (client : Client S) (objects : Objects S Task) (pods : Pods S)
    (expired : S → Bool × S)
    (authorize : UserInfo → ResourceAttributes → S → Option AuthError × S) where
  -- In the state `s` the identity has just been granted the access to the log of this very Pod, in
  -- time; `u` is the state in which it was asked for, where `P` held.
  pub record JustGranted (P : S → Type 0) (user : Option UserInfo) (pod : Pod) (s : S)
      : Type 0 where
    pub identity : UserInfo
    pub known : user ≡ some identity
    pub before : S
    pub held : P before
    pub granted : (authorize identity (log_access pod) before).0 ≡ none
    pub in_time : (expired (authorize identity (log_access pod) before).1).0 ≡ false
    pub now : s ≡ (expired (authorize identity (log_access pod) before).1).1

  -- What the calls of the handler keep, where a log is opened only with the access to it granted.
  pub record KeptByLogs (P : S → Type 0) (user : Option UserInfo) : Type 0 where
    pub get : (name : String) (s : S) → P s → P (objects.get name s).1
    pub list_jobs :
        (namespace : String) (labels : List (String × String)) (s : S)
        → P s
        → P (client.list_jobs namespace labels s).1
    pub list_pods : (namespace job : String) (s : S) → P s → P (pods.list namespace job s).1
    pub expiry : (s : S) → P s → P (expired s).1
    pub review : (u : UserInfo) (a : ResourceAttributes) (s : S) → P s → P (authorize u a s).1
    pub open_log :
        (pod : Pod) (options : LogOptions) (s : S)
        → JustGranted P user pod s
        → P s
        → P (pods.open_log pod options s).1

  answer_only :
      {A B : Type 0} (r : Reply A) (f : A → B) (s : S) → (and_then r (λ a. pure (f a)) s).1 ≡ s
  answer_only (done a) f s = refl
  answer_only (failed e) f s = refl

  -- What follows a check: nothing, unless the access was granted in time.
  proceed-keeps :
      (P : S → Type 0) (late : Bool) (e : Option AuthError) (next : S → Response × S) (s : S)
      → P s
      → (late ≡ false → e ≡ none → P (next s).1)
      → P (proceed expired authorize (refusal expired authorize late e) next s).1
  unfolding proceed
  proceed-keeps P true e next s p more = p
  proceed-keeps P false none next s p more = more refl refl
  proceed-keeps P false (some AuthError.unauthenticated) next s p more = p
  proceed-keeps P false (some AuthError.forbidden) next s p more = p
  proceed-keeps P false (some AuthError.unavailable) next s p more = p

  module _ (describe : Error → String) (query : LogQuery) (P : S → Type 0) (c : Context)
      (on : c.authorizes ≡ true) (keeps : KeptByLogs P c.user) where
    send_log-keeps :
        (pod : Pod) (s : S)
        → JustGranted P c.user pod s
        → P s
        → P (send_log client objects pods describe expired authorize query pod s).1
    unfolding send_log
    send_log-keeps pod s g p =
        let after = keeps.open_log pod (log_options query) s g p in
        handle-keeps P (pods.open_log pod (log_options query)) _ _ s after (λ lines h. after)

    check_user-keeps :
        (user : Option UserInfo) (pod : Pod) (s : S)
        → c.user ≡ user
        → P s
        → P
            (check_user expired authorize user
              (log_access pod ∷ [])
              (λ d. send_log client objects pods describe expired authorize query pod)
              c
              s).1
    unfolding check_user check_access
    check_user-keeps none pod s h p = p
    check_user-keeps (some user) pod s h p =
        let asked = authorize user (log_access pod) s in
        let after = keeps.expiry asked.1 (keeps.review user (log_access pod) s p) in
        proceed-keeps P (expired asked.1).0 asked.0 _ (expired asked.1).1 after (λ in_time granted.
          send_log-keeps pod (expired asked.1).1
            (record {
              identity = user;
              known = h;
              before = s;
              held = p;
              granted = granted;
              in_time = in_time;
              now = refl;
            })
            after)

    stream_pod-keeps :
        (pod : Option Pod) (s : S)
        → P s
        → P (stream_pod client objects pods describe expired authorize query pod c s).1
    unfolding stream_pod authorize_resource check_resource_access
    stream_pod-keeps none s p = p
    stream_pod-keeps (some pod) s p =
        cases-if (λ (out : Response × S). P out.1) c.authorizes
          (λ is. check_user-keeps c.user pod s refl p) (λ off. absurd cc)

    stream_job-keeps :
        (task : Task) (job : Option Job) (s : S)
        → P s
        → P (stream_job client objects pods describe expired authorize query task job c s).1
    unfolding stream_job
    stream_job-keeps task none s p = p
    stream_job-keeps task (some job) s p =
        let after = keeps.list_pods job.meta.namespace job.meta.name s p in
        handle-keeps P (pods.list job.meta.namespace job.meta.name) _ _ s after (λ found h.
          stream_pod-keeps (last_of (own_pods client objects pods task job found)) _ after)

    list_task_jobs-keeps : (task : Task) (s : S) → P s → P (list_task_jobs client task s).1
    unfolding list_task_jobs
    list_task_jobs-keeps task s p = subst P (sym (answer_only _ _ _)) (keeps.list_jobs _ _ s p)

    -- Where requests are authorized, on every branch of the handler of the logs, errors included: what
    -- its calls keep is kept, where a log is opened only for an identity that has just been granted,
    -- in time, the access to the log of the very Pod.
    pub stream-keeps :
        (s : S) → P s → P (stream client objects pods describe expired authorize query c s).1
    unfolding stream with_task get_tenant_object
    stream-keeps s p =
        let found = objects.get c.request.name s in
        let after : P
            (get_tenant_object objects (λ t. t.meta) c.request.namespace c.request.name s).1 =
          subst P (sym (visible-keeps P objects (λ t. t.meta) c.request.namespace found.0 found.1))
            (keeps.get c.request.name s p) in
        handle-keeps P (get_tenant_object objects (λ t. t.meta) c.request.namespace c.request.name)
          _ _ s after
          (λ task h.
            let listed = list_task_jobs-keeps task _ after in
            handle-keeps P (list_task_jobs client task) _ _ _ listed
              (λ jobs k. stream_job-keeps task (last_of jobs) _ listed))
