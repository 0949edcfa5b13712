-- ===== src/Repository/Invariant.antt =====
-- The consistency of the tables `jobs`, `job_attempts` and `dead_letters` of app/repository.py,
-- one job identifier at a time.
pub mod Views
pub mod Quiet
pub mod Finish
pub mod Insert
pub mod Create
pub mod Schedules
pub mod Recover
pub mod Reap
pub mod Marks
use digitalocean.Base.{
  ℕ, ◌+◌, ◌≤◌, ◌≡◌, Bool, true, false, ◌&&◌, Option, none, some, leb, is_some, ◌==◌,
}
use digitalocean.Models.{
  Job, JobStatus, queued, running, succeeded, failed, dead_lettered, cancelled, is_status,
}
use digitalocean.Sql.{find}
use digitalocean.Sql.Update.{Unique}
use digitalocean.Repository.Store.{Db, get_job, is_attempt}

-- Whether attempt n of a job is in the audit log.
unfoldable pub has_attempt : ℕ → ℕ → Db → Bool
has_attempt job_id n db = is_some (find (is_attempt job_id n) db.job_attempts)

unfoldable pub has_dead_letter : ℕ → Db → Bool
has_dead_letter job_id db = is_some (find (λ d. d.job_id == job_id) db.dead_letters)

abbrev pub is_terminal : JobStatus → Bool
is_terminal queued = false
is_terminal running = false
is_terminal _ = true

-- How many attempts a job in a status can have behind it. No job is ever `failed`.
abbrev pub AttemptsFit : JobStatus → (attempt_count max_retries : ℕ) → Type 0
AttemptsFit queued c m = c ≤ m
AttemptsFit running c m = c ≤ m
AttemptsFit succeeded c m = (1 ≤ c) × (c ≤ m + 1)
AttemptsFit failed c m = ⊥
AttemptsFit dead_lettered c m = c ≡ m + 1
AttemptsFit cancelled c m = c ≤ m

-- A row of `jobs`: it holds a lease exactly while it is running, has a finish time exactly when
-- its status is terminal, and its attempts are within its retry budget.
abbrev pub IsRow : Job → Type 0
IsRow j =
    (is_some j.locked_by ≡ is_status j.status running)
    × (is_some j.locked_at ≡ is_status j.status running)
    × (is_some j.finished_at ≡ is_terminal j.status)
    × AttemptsFit j.status j.attempt_count j.max_retries

-- The row of a job against its log and its dead letter: the log has the attempts 1 to
-- `attempt_count` and no other, and there is a dead letter exactly for a dead-lettered job.
abbrev pub Agrees : ℕ → Option Job → (ℕ → Bool) → Bool → Type 0
Agrees k none log dead = ((n : ℕ) → log n ≡ false) × (dead ≡ false)
Agrees k (some j) log dead =
    (j.id ≡ k)
    × IsRow j
    × ((n : ℕ) → log n ≡ (leb 1 n && leb n j.attempt_count))
    × (dead ≡ is_status j.status dead_lettered)

abbrev pub AgreesAt : ℕ → Db → Type 0
AgreesAt k db = Agrees k (get_job k db) (λ n. has_attempt k n db) (has_dead_letter k db)

pub record IsValid (db : Db) : Type 0 where
  pub keys : Unique (λ j. j.id) db.jobs
  pub agrees : (k : ℕ) → AgreesAt k db
