-- ===== src/TaskController.antt =====
-- internal/controller/task_controller.go: the reconciler that runs a task by Kubernetes Jobs.
pub mod Jobs
pub mod Sync
pub mod Finished
pub mod Handlers
pub mod Reconcile
