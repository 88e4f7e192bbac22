-- ===== src/Kube.antt =====
-- What the controllers ask of Kubernetes: the client of controller-runtime, the clock, and the
-- helpers on owner references and finalizers. None of it is the repository's code, so it is an
-- interface over a state `S` that every call may change: the cluster with all that acts on it
-- between two calls.
use kube_task.Base.{ℕ, String, Bool, Option, none, some, List, ◌≡◌, refl}
use kube_task.Api.{Meta, Task, Workflow, Time, Duration}

-- What the code distinguishes among errors. `name_conflict` is `errTaskNameConflict` of
-- workflow_controller.go, with the message that wraps it.
pub data Error : Type 0 where
  not_found already_exists : Error
  name_conflict : String → Error
  other : String → Error

pub data Reply (A : Type 0) : Type 0 where
  done : A → Reply A
  failed : Error → Reply A

abbrev pub Call : Type 0 → Type 0 → Type 0
Call S A = S → Reply A × S

module _ {S : Type 0} where
  abbrev pub pure : {A : Type 0} → A → Call S A
  pure a s = (done a, s)

  abbrev pub throw : {A : Type 0} → Error → Call S A
  throw e s = (failed e, s)

  abbrev pub and_then : {A B : Type 0} → Reply A → (A → Call S B) → Call S B
  and_then (done a) f = f a
  and_then (failed e) f = throw e

  infixl 5 ◌>>=◌ ◌>>◌
  abbrev pub ◌>>=◌ : {A B : Type 0} → Call S A → (A → Call S B) → Call S B
  m >>= f = λ s. let (r, s') = m s in and_then r f s'

  abbrev pub ◌>>◌ : {A B : Type 0} → Call S A → Call S B → Call S B
  m >> n = m >>= λ _. n

  -- `if err := m; err != nil { … }`: the error as a value.
  abbrev pub attempt : {A : Type 0} → Call S A → Call S (Reply A)
  attempt m s = let (r, s') = m s in (done r, s')

  -- Inversion of a chain that succeeds.
  pub and_then-eq-done :
      {A B : Type 0} (r : Reply A) (f : A → Call S B) (s : S) {b : B}
      → (and_then r f s).0 ≡ done b
      → (a : A) × (r ≡ done a) × ((f a s).0 ≡ done b)
  and_then-eq-done (done a) f s h = (a, refl, h)
  and_then-eq-done (failed e) f s h = cc

  -- A value in place of an answer does not change the state.
  pub and_then_pure :
      {A B : Type 0} (P : S → Type 0) (r : Reply A) (b : B) (s : S)
      → P s
      → P (and_then r (λ a. pure b) s).1
  and_then_pure P (done a) b s p = p
  and_then_pure P (failed e) b s p = p

-- A Job condition: the code reads its type, its status and, for alerts, why and when it was set.
pub data ConditionType : Type 0 where
  complete failed : ConditionType
  other : String → ConditionType

pub record JobCondition : Type 0 where
  pub type : ConditionType
  pub is_true : Bool
  pub reason : String
  pub message : String
  pub last_transition_time : Option Time

pub record Container : Type 0 where
  pub name : String
  pub image : String
  pub command : List String
  pub args : List String
  pub env : List (String × String)
  pub resources : String

-- The fields of a Job's spec that the code sets, its pod template flattened into it.
pub record JobSpec : Type 0 where
  pub backoff_limit : ℕ
  pub restart_policy : String
  pub containers : List Container
  pub active_deadline_seconds : Option ℕ
  pub ttl_seconds_after_finished : Option ℕ

pub record Job : Type 0 where
  pub meta : Meta
  pub spec : JobSpec
  pub active : ℕ
  pub completion_time : Option Time
  pub conditions : List JobCondition

-- `ctrl.Result`
pub record CtrlResult : Type 0 where
  pub requeue_after : Option Duration

abbrev pub no_requeue : CtrlResult
no_requeue = record { requeue_after = none }

abbrev pub requeue_in : Duration → CtrlResult
requeue_in d = record { requeue_after = some d }

pub record Client (S : Type 0) : Type 0 where
  pub now : Call S Time
  -- `err.Error()`, for a text that wraps an error.
  pub describe : Error → String
  -- Workflows. An update returns the object as the server has it.
  pub get_workflow : String → Call S Workflow
  pub update_workflow : Workflow → Call S Workflow
  pub update_workflow_status : Workflow → Call S Workflow
  -- Tasks, which are cluster-scoped. `list_tasks` takes the labels that have to match, and
  -- `delete_task` a UID that the object must have.
  pub get_task : String → Call S Task
  pub list_tasks : List (String × String) → Call S (List Task)
  pub create_task : Task → Call S Task
  pub update_task : Task → Call S Task
  pub update_task_status : Task → Call S Task
  pub delete_task : String → Option String → Call S (Unit {0})
  -- Jobs, by namespace.
  pub list_jobs : String → List (String × String) → Call S (List Job)
  pub create_job : Job → Call S Job
  pub delete_job : Job → Call S (Unit {0})
  -- `metav1.IsControlledBy`, `controllerutil.SetControllerReference` (owner first), and the
  -- finalizer helpers of controllerutil.
  pub is_controlled_by : Meta → Meta → Bool
  pub set_controller_reference : Meta → Meta → Reply Meta
  pub contains_finalizer : Meta → String → Bool
  pub add_finalizer : Meta → String → Meta
  pub remove_finalizer : Meta → String → Meta
