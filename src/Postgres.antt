-- ===== src/Postgres.antt =====
-- `class PostgresJobRepository` of app/postgres_repository.py. Its tables, unique indexes and
-- foreign keys are those of `Repository.Store`. `locked` says which rows other open transactions
-- hold, by their identifiers: `FOR UPDATE SKIP LOCKED` passes over them.
pub mod Shared
pub mod Claim
pub mod Finish
pub mod Recover
pub mod Schedules
pub mod Agree
pub mod Locks
pub mod System
pub mod Round
