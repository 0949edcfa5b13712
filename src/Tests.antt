-- ===== src/Tests.antt =====
-- Small tables on which the model runs, and every theorem with hypotheses at one of them.
mod Samples
mod Queue
mod Lifecycle
mod Settings
mod Http
mod Jobs
mod Recurring
mod Postgres
mod Interleaved
mod Threads
mod Times
mod Stored
mod Measures
