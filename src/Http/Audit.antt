-- ===== src/Http/Audit.antt =====
-- internal/api/middleware/audit.go: the event of a write request. `emit` stands for the creation of
-- the event in Kubernetes; an error of it is only logged.
use kube_task.Base.{
  ℕ, String, Bool, not, Option, none, some, List, [], ◌∷◌, ◌==◌, if◌then◌else◌, nat_eq, leb, lookup,
  concat, decimal, chars, of_list, cut_prefix,
}
use kube_task.Auth.{UserInfo, api_key_id_extra}
use kube_task.Tenant.{service_account_namespace}
use kube_task.Http.Request.{Response}
use kube_task.Http.Middleware.{Context, Next, AuditOperation, audit_operations}

pub record AuditTarget : Type 0 where
  pub kind : String
  pub name : String
  pub uid : String

pub record AuditEvent : Type 0 where
  pub namespace : String
  pub account : String
  pub account_uid : String
  pub action : String
  pub reason : String
  pub type : String
  pub note : String
  pub key_id : Option String
  pub related : Option AuditTarget

abbrev pub audit_reason : ℕ → String
audit_reason status =
    if nat_eq status 403
    then "APIRequestDenied"
    else if leb 400 status
    then "APIRequestFailed"
    else "APIRequestSucceeded"

abbrev pub audit_target : (kind name : String) → Option (String × String) → Option AuditTarget
audit_target kind name (some (created, uid)) =
    if not (created == "") then some (record { kind = kind; name = created; uid = uid }) else none
audit_target kind name none =
    if not (name == "") then some (record { kind = kind; name = name; uid = "" }) else none

-- `strings.TrimPrefix`
abbrev pub trim_prefix : (prefix text : String) → String
trim_prefix prefix text = elim (cut_prefix (chars prefix) (chars text)) [
  | none ↦ text
  | some rest ↦ of_list rest
]

abbrev pub first_key : Option (List String) → Option String
first_key (some (id ∷ ids)) = some id
first_key _ = none

unfoldable pub audit_event :
    (kind action : String) → UserInfo → (name : String) → Response → AuditEvent
unfolding service_account_namespace chars concat
audit_event kind action user name r =
    let namespace = service_account_namespace user.username in
    record {
      namespace = namespace;
      account =
          trim_prefix (concat ("system:serviceaccount:" ∷ namespace ∷ ":" ∷ [])) user.username;
      account_uid = user.uid;
      action = action;
      reason = audit_reason r.status;
      type = if leb 400 r.status then "Warning" else "Normal";
      note = concat (kind ∷ " request returned HTTP " ∷ decimal r.status ∷ []);
      key_id = first_key (lookup api_key_id_extra user.extra);
      related = audit_target kind name r.audit;
    }

module _ {S : Type 0} (expired : S → Bool × S) (emit : AuditEvent → S → S) where
  -- The answer of what comes behind, with its event.
  abbrev pub audited : AuditOperation → Context → Option UserInfo → Response × S → Response × S
  audited o c none (r, s) = (r, s)
  audited o c (some user) (r, s) = (r, emit (audit_event o.kind o.action user c.request.name r) s)

  unfoldable pub audit_as : Option AuditOperation → Next expired → Next expired
  unfolding audit_event
  audit_as none next c s = next c s
  audit_as (some o) next c s = audited o c c.user (next c s)

  unfoldable pub audit : (route : String) → Next expired → Next expired
  unfolding audit_as
  audit route = audit_as (lookup route audit_operations)
