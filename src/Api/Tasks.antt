-- ===== src/Api/Tasks.antt =====
-- api/v1/task_types.go
use kube_task.Base.{ℤ, ℕ, String, Bool, Option, List, ◌≡◌, arith}
use kube_task.Api.Metadata.{Meta, Time, Duration}

-- A type that no constant names is kept as its text; the empty one is `other ""`.
pub data TaskType : Type 0 where
  cron one_time delay : TaskType
  other : String → TaskType

pub data ConcurrencyPolicy : Type 0 where
  allow forbid replace : ConcurrencyPolicy
  unknown : String → ConcurrencyPolicy

-- `unset` is the empty phase of a task that has no status.
pub data TaskPhase : Type 0 where
  unset pending running succeeded failed suspended : TaskPhase

pub record ExecutionRecord : Type 0 where
  pub job_name : String
  pub start_time : Time
  pub stop_time : Time
  pub phase : TaskPhase
  pub exit_code : ℕ

-- `resources` and the variables of `env` are copied and never read: they are kept as text.
pub record TaskSpec : Type 0 where
  pub type : TaskType
  pub schedule : String
  pub delay : Option Duration
  pub image : String
  pub command : List String
  pub args : List String
  pub resources : String
  pub env : List (String × String)
  pub backoff_limit : Option ℕ
  pub active_deadline_seconds : Option ℕ
  pub ttl_seconds_after_finished : Option ℕ
  pub concurrency_policy : ConcurrencyPolicy
  pub suspend : Option Bool
  pub cluster_name : String

-- `conditions` is left out: no code reads or writes it. The counters are `int32`.
pub record TaskStatus : Type 0 where
  pub phase : TaskPhase
  pub message : String
  pub last_schedule_time : Option Time
  pub last_start_time : Option Time
  pub last_completion_time : Option Time
  pub execution_history : List ExecutionRecord
  pub active_jobs : List String
  pub failed : ℤ
  pub succeeded : ℤ

pub record Task : Type 0 where
  pub meta : Meta
  pub spec : TaskSpec
  pub status : TaskStatus

abbrev pub phase_eq : TaskPhase → TaskPhase → Bool
phase_eq unset unset = Bool.true
phase_eq pending pending = Bool.true
phase_eq running running = Bool.true
phase_eq succeeded succeeded = Bool.true
phase_eq failed failed = Bool.true
phase_eq suspended suspended = Bool.true
phase_eq _ _ = Bool.false

pub phase_eq-eq : (p q : TaskPhase) → phase_eq p q ≡ Bool.true → p ≡ q
phase_eq-eq p q h = ground arith
