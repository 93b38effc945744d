-- ===== src/DegreeAudit/Evaluators.antt =====
-- apps/api/app/services/degree_audit/engine.py: the evaluators of the requirement types.
mod Base
mod Selection
mod Leaves
mod Pools
mod Parents
pub mod Reports
pub mod Distinct
pub mod Exclusive
pub mod Agreement
pub mod Once
pub mod Available
pub mod BestChild
pub mod Twice
pub mod Unreserved
unfoldable pub use Base.*
unfoldable pub use Selection.*
unfoldable pub use Leaves.*
unfoldable pub use Pools.*
unfoldable pub use Parents.*
