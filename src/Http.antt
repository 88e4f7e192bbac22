-- ===== src/Http.antt =====
-- internal/api: the handlers behind the routes, the tenants that they keep apart, and the checks
-- that a request passes before one of them runs.
pub mod Request
pub mod Tenancy
pub mod Pages
pub mod Statistics
pub mod TaskHandler
pub mod WorkflowHandler
pub mod Bearer
pub mod Middleware
pub mod Audit
pub mod LogHandler
pub mod Router
pub mod Isolation
pub mod OwnWrites
