-- ===== src/Dag.antt =====
-- internal/workflow/dag.go: validation of a workflow's DAG, its topological order and its levels.
pub mod Accessors
pub mod Validate
pub mod Kahn
pub mod Levels
pub mod Build
unfoldable pub use Accessors.*
unfoldable pub use Validate.*
unfoldable pub use Kahn.*
unfoldable pub use Levels.*
unfoldable pub use Build.*
