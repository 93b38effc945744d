-- ===== src/Scenarios.antt =====
-- apps/api/app/services/academic_scenarios/allocator.py: the allocation of records to programs.
pub mod Candidates
pub mod Policies
pub mod Objective
pub mod Search
pub mod Allocate
mod Tests
