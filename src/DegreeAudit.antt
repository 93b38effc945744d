-- ===== src/DegreeAudit.antt =====
-- apps/api/app/services/degree_audit: the degree audit of one student against one program version.
pub mod Keys
pub mod Records
pub mod Quantize
pub mod Result
pub mod Grades
pub mod Monad
pub mod Frames
pub mod Allocator
pub mod Candidates
pub mod Context
pub mod Index
pub mod Status
pub mod Evaluators
pub mod Engine
pub mod Tests
