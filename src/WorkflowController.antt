-- ===== src/WorkflowController.antt =====
-- internal/controller/workflow_controller.go: the reconciler that runs a workflow's DAG by child tasks.
pub mod Nodes
pub mod Status
pub mod Children
pub mod Advance
pub mod Reconcile
