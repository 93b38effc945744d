-- ===== src/DegreeAudit/Tests.antt =====
-- The sample data of the degree audit, and the theorems applied to it.
pub mod Samples
pub mod Grades
pub mod Selection
pub mod Audit
