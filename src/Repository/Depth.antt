-- ===== src/Repository/Depth.antt =====
-- The reports of app/repository.py: `queue_depth`, `list_scheduled_jobs`, `list_dead_letters`,
-- `latency_seconds` and `oldest_queued_age_seconds`.
pub mod Partition
pub mod Age
use digitalocean.Base.{
  ◌||◌, Option, none, some, is_some, or_else, map, ℕ, ◌-◌, Bool, ◌&&◌, List, length, ltb,
}
use digitalocean.Models.{
  Job, JobStatus, DeadLetter, QueueDepth, queued, running, succeeded, failed, dead_lettered,
  cancelled, is_status,
}
use digitalocean.Sql.{select, count, order_by, limit, first}
use digitalocean.Repository.Store.{Db}
use digitalocean.Repository.Claim.{is_due}

-- A row of `SELECT status, COUNT(*) FROM jobs GROUP BY status`; 0 where there is no row.
abbrev pub counts : JobStatus → List Job → ℕ
counts s jobs = count (λ j. is_status j.status s) jobs

-- `max(queued - due, 0)` is the truncated difference. `between` is what other connections commit
-- between the two queries, which are no transaction.
unfoldable pub queue_depth : (now : ℕ) → (between : Db → Db) → Db → QueueDepth
queue_depth now between db = record {
  queued = counts queued db.jobs;
  running = counts running db.jobs;
  succeeded = counts succeeded db.jobs;
  failed = counts failed db.jobs;
  dead_lettered = counts dead_lettered db.jobs;
  cancelled = counts cancelled db.jobs;
  total = length db.jobs;
  due_queued = count (is_due now) (between db).jobs;
  scheduled_queued = counts queued db.jobs - count (is_due now) (between db).jobs;
}

-- `WHERE status = 'queued' AND run_at > now`
abbrev pub is_scheduled : ℕ → Job → Bool
is_scheduled now j = is_status j.status queued && ltb now j.run_at

unfoldable pub list_scheduled_jobs : (now max_rows : ℕ) → Db → List Job
list_scheduled_jobs now max_rows db =
    limit max_rows (order_by (λ a b. ltb a.run_at b.run_at) (select (is_scheduled now) db.jobs))

unfoldable pub list_dead_letters : ℕ → Db → List DeadLetter
list_dead_letters max_rows db =
    limit max_rows (order_by (λ a b. ltb b.dead_lettered_at a.dead_lettered_at) db.dead_letters)

-- `WHERE finished_at IS NOT NULL AND status IN (...)`
abbrev pub is_ended : Job → Bool
is_ended j =
    is_some j.finished_at
    && (is_status j.status succeeded
        || is_status j.status dead_lettered
        || is_status j.status cancelled)

-- `max(finished - created, 0)` is the truncated difference.
abbrev pub latency : Job → ℕ
latency j = or_else j.finished_at 0 - j.created_at

unfoldable pub latency_seconds : (max_rows : ℕ) → Db → List ℕ
latency_seconds max_rows db =
    let later = λ (a b : Job). ltb (or_else b.finished_at 0) (or_else a.finished_at 0) in
    map latency (limit max_rows (order_by later (select is_ended db.jobs)))

-- The age of the row that was found; the clock is read again for it.
abbrev pub age_of : (asked : ℕ) → Option Job → Option ℕ
age_of asked none = none
age_of asked (some j) = some (asked - j.created_at)

abbrev pub oldest : (now : ℕ) → List Job → Option Job
oldest now jobs = first (order_by (λ a b. ltb a.created_at b.created_at) (select (is_due now) jobs))

unfoldable pub oldest_queued_age_seconds : (now asked : ℕ) → Db → Option ℕ
oldest_queued_age_seconds now asked db = age_of asked (oldest now db.jobs)
