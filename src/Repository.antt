-- ===== src/Repository.antt =====
-- `class JobRepository` of app/repository.py: a module for each group of its methods.
pub mod Store
pub mod Invariant
pub mod Create
pub mod Claim
pub mod Finish
pub mod Recover
pub mod Cancel
pub mod Depth
pub mod Registry
pub mod Schedules
