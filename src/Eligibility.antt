-- ===== src/Eligibility.antt =====
-- apps/api/app/services/course_eligibility: whether a student may take a course in a term.
pub mod Records
pub mod Result
pub mod Rollup
pub mod Evidence
pub mod Leaves
pub mod Checked
pub mod Tree
pub mod Engine
pub mod Store
pub mod Samples
mod Tests
