-- ===== src/Http/Request.antt =====
-- What the handlers of internal/api/handler share: a request as gin hands it over, the answers, and
-- the client of controller-runtime for one kind of object.
use kube_task.Base.{ℕ, ℤ, String, List, Option, none, Bool}
use kube_task.Api.{Task, Workflow, NodePhase, Time}
use kube_task.Kube.{Error, Reply, done, failed, Call}

-- An object with the fields of `TypeMeta` and `ObjectMeta` that only a creation sets.
pub record Submission (A : Type 0) : Type 0 where
  pub api_version : String
  pub kind : String
  pub generate_name : String
  pub object : A

-- `ShouldBindJSON`: the body, or the text of the error.
pub data Bound (A : Type 0) : Type 0 where
  bound : A → Bound A
  malformed : String → Bound A

-- `namespace` is the tenant that the middleware put into the context, empty where it is off.
pub record Request : Type 0 where
  pub namespace : String
  pub name : String

pub record ListQuery : Type 0 where
  pub page : Option String
  pub page_size : Option String
  pub type : String
  pub phase : String

-- The client, for one kind. An update returns the object as the server has it.
pub record Objects (S A : Type 0) : Type 0 where
  pub get : String → Call S A
  pub list : List (String × String) → Call S (List A)
  pub create : Submission A → Call S A
  pub update : A → Call S A
  pub update_status : A → Call S A
  pub delete : A → (precondition : Option String) → Call S (Unit {0})

pub record Page (A : Type 0) : Type 0 where
  pub items : List A
  pub total : ℕ
  pub page : ℤ
  pub page_size : ℤ

pub record Stats : Type 0 where
  pub total : ℕ
  pub pending : ℕ
  pub running : ℕ
  pub succeeded : ℕ
  pub failed : ℕ
  pub suspended : ℕ
  pub onetime : ℕ
  pub cron : ℕ
  pub delay : ℕ

pub record TrendPoint : Type 0 where
  pub total : ℕ
  pub succeeded : ℕ
  pub failed : ℕ

pub record GraphNode : Type 0 where
  pub name : String
  pub depends_on : List String
  pub run_on_failure : Bool
  pub phase : NodePhase
  pub task_name : String
  pub start_time : Option Time
  pub completion_time : Option Time
  pub message : String

pub record GraphEdge : Type 0 where
  pub source : String
  pub target : String

pub record WorkflowGraph : Type 0 where
  pub nodes : List GraphNode
  pub edges : List GraphEdge
  pub order : List String
  pub levels : List (List String)
  pub validation_error : String

-- `recovered` is what `gin.Recovery` sends after a panic.
pub data Body : Type 0 where
  error : String → Body
  reasoned_error : (message reason : String) → Body
  message : (text name : String) → Body
  task : Task → Body
  task_page : Page Task → Body
  stats : Stats → Body
  trend : List (String × TrendPoint) → Body
  workflow : Workflow → Body
  workflow_page : Page Workflow → Body
  workflow_detail : Workflow → WorkflowGraph → Body
  log_lines : List String → Body
  recovered : Body

-- `audit` is the target that `SetAuditTarget` leaves for the audit: a name and a UID.
pub record Response : Type 0 where
  pub status : ℕ
  pub body : Body
  pub audit : Option (String × String)

-- `c.JSON`
abbrev pub json : ℕ → Body → Response
json status body = record { status = status; body = body; audit = none }

module _ {S A : Type 0} where
  unfoldable pub after_call :
      (Error → Response) → (A → S → Response × S) → Reply A → S → Response × S
  after_call on_error next (done a) s = next a s
  after_call on_error next (failed e) s = (on_error e, s)

  -- `if err := call; err != nil { … }`, with the answer to the error.
  unfoldable pub handle : Call S A → (Error → Response) → (A → S → Response × S) → S → Response × S
  unfolding after_call
  handle call on_error next s = let (r, s') = call s in after_call on_error next r s'

-- `IsNotFound` is answered as 404 with `missing`, any other error as 500.
unfoldable pub lookup_failure : (describe : Error → String) → (missing : String) → Error → Response
lookup_failure describe missing Error.not_found = json 404 (Body.error missing)
lookup_failure describe missing e = json 500 (Body.error (describe e))

unfoldable pub server_failure : (describe : Error → String) → Error → Response
server_failure describe e = json 500 (Body.error (describe e))
