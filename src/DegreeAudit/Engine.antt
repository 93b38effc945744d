-- ===== src/DegreeAudit/Engine.antt =====
-- apps/api/app/services/degree_audit/engine.py: `EvaluatorRegistry` and `DegreeAuditEngine`.
mod Registry
mod Loading
mod Report
pub mod Recursion
pub mod Total
pub mod Percentage
pub mod Completeness
pub mod EndToEnd
unfoldable pub use Registry.*
unfoldable pub use Loading.*
unfoldable pub use Report.*
