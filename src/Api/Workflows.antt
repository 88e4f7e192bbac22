-- ===== src/Api/Workflows.antt =====
-- api/v1/workflow_types.go
use kube_task.Base.{ℕ, String, Bool, Option, List}
use kube_task.Api.Metadata.{Meta, Time}
use kube_task.Api.Tasks.{TaskSpec}

pub data WorkflowPhase : Type 0 where
  unset pending running succeeded failed : WorkflowPhase

pub data NodePhase : Type 0 where
  unset pending running succeeded failed skipped : NodePhase

pub record WorkflowTask : Type 0 where
  pub name : String
  pub depends_on : List String
  pub template : String
  pub task_spec : Option TaskSpec
  pub run_on_failure : Bool

-- The CRD's validation keeps `max_parallel` from being negative.
pub record WorkflowSpec : Type 0 where
  pub max_parallel : ℕ
  pub tasks : List WorkflowTask
  pub task_templates : List (String × TaskSpec)

pub record NodeStatus : Type 0 where
  pub name : String
  pub phase : NodePhase
  pub task_name : String
  pub start_time : Option Time
  pub completion_time : Option Time
  pub message : String

pub record WorkflowStatus : Type 0 where
  pub phase : WorkflowPhase
  pub message : String
  pub start_time : Option Time
  pub completion_time : Option Time
  pub observed_generation : ℕ
  pub nodes : List NodeStatus

pub record Workflow : Type 0 where
  pub meta : Meta
  pub spec : WorkflowSpec
  pub status : WorkflowStatus
