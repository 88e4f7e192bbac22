-- ===== src/Tenant.antt =====
-- internal/tenant: the label that binds an object to a tenant's namespace, the namespace of an
-- identity, and the Jobs of a task.
pub mod Accounts
use kube_task.Base.{
  Bool, true, false, ◌||◌, Char, chars, of_list, cut, cut_prefix, contains, concat, Option, none,
  some, String, not, List, [], ◌∷◌, ◌==◌, if◌then◌else◌, lookup, insert, delete_key, get_or, keep,
}
use kube_task.Api.{Task}
use kube_task.Kube.{Client, Call, Job, pure, ◌>>=◌}

abbrev pub tenant_label : String
tenant_label = "kubetask.io/tenant"

abbrev pub task_label : String
task_label = "kubetask.io/task"

-- `labels[key]`, which is empty for a key that is not there.
abbrev pub label_of : String → List (String × String) → String
label_of key labels = get_or "" (lookup key labels)

unfoldable pub set_namespace : List (String × String) → String → List (String × String)
set_namespace labels namespace =
    if namespace == "" then delete_key tenant_label labels else insert tenant_label namespace labels

unfoldable pub job_namespace : Task → String
job_namespace task =
    let namespace = label_of tenant_label task.meta.labels in
    if not (namespace == "") then namespace else "default"

module _ {S : Type 0} (client : Client S) where
  -- A tenant's task counts only the Jobs that it controls.
  unfoldable pub own_jobs : Task → List Job → List Job
  own_jobs task jobs =
      if not (label_of tenant_label task.meta.labels == "")
      then keep (λ job. client.is_controlled_by job.meta task.meta) jobs
      else jobs

  unfoldable pub list_task_jobs : Task → Call S (List Job)
  unfolding job_namespace own_jobs
  list_task_jobs task = do
    jobs ← client.list_jobs (job_namespace task) ((task_label, task.meta.name) ∷ [])
    pure (own_jobs task jobs)

abbrev pub is_nil : List Char → Bool
is_nil [] = true
is_nil (c ∷ cs) = false

-- The namespace, of what stands before and behind the first colon.
unfoldable pub account_namespace : Option (List Char × List Char) → String
account_namespace none = ""
account_namespace (some (namespace, name)) =
    if is_nil name || contains 58 name then "" else of_list namespace

-- Behind the prefix of the service accounts.
unfoldable pub prefixed_namespace : Option (List Char) → String
unfolding account_namespace
prefixed_namespace none = ""
prefixed_namespace (some account) = account_namespace (cut 58 account)

unfoldable pub service_account_namespace : String → String
unfolding prefixed_namespace chars
service_account_namespace username =
    prefixed_namespace (cut_prefix (chars "system:serviceaccount:") (chars username))

unfoldable pub service_account_name : (namespace name : String) → String
unfolding concat
service_account_name namespace name =
    concat ("system:serviceaccount:" ∷ namespace ∷ ":" ∷ name ∷ [])
