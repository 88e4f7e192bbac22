-- ===== src/Api.antt =====
-- The custom resources of api/v1 (`task_types.go`, `workflow_types.go`) and what the code reads of
-- their Kubernetes metadata. A pointer is an `Option`, a map of strings an association list, an
-- instant or a duration an integer of nanoseconds, and `int32` and `int64` fields that the API
-- server's validation keeps from being negative are natural numbers.
mod Metadata
mod Tasks
mod Workflows
mod Zero
pub use Metadata.*
pub use Tasks.*
pub use Workflows.*
pub use Zero.*
