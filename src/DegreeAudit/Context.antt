-- ===== src/DegreeAudit/Context.antt =====
-- apps/api/app/services/degree_audit/context.py: `AuditContext` and its candidates. The warnings
-- that the object collects are in the state of the run.
mod Attempts
mod Courses
mod Summary
pub mod Eligible
pub mod Closed
pub mod Ignores
unfoldable pub use Attempts.*
unfoldable pub use Courses.*
unfoldable pub use Summary.*
