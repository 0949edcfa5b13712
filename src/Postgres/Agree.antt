-- ===== src/Postgres/Agree.antt =====
-- The two repositories that app/repository_factory.py chooses from.
use digitalocean.Base.{ℕ, ◌≡◌, String, Bool, false}
use digitalocean.Models.{Job, Json}
use digitalocean.Repository.Store.{Db}
use digitalocean.Repository.Schedules.{Cron}
use digitalocean.Repository.Invariant.{IsValid}
use digitalocean.Repository.Claim as SqliteClaim
use digitalocean.Repository.Finish as SqliteFinish
use digitalocean.Repository.Recover as SqliteRecover
use digitalocean.Repository.Schedules as SqliteSchedules
use digitalocean.Postgres.Claim.{claim_next_job}
use digitalocean.Postgres.Claim.Agree.{SameJobs, Untied, claim_next_job-same}
use digitalocean.Postgres.Finish.{mark_succeeded, mark_failed_attempt}
use digitalocean.Postgres.Finish.Agree.{mark_succeeded-agrees, mark_failed_attempt-agrees}
use digitalocean.Postgres.Recover.{recover_stale_jobs}
use digitalocean.Postgres.Recover.Skips.{recover_stale_jobs-agrees}
use digitalocean.Postgres.Schedules.{set_schedule_enabled}
use digitalocean.Postgres.Schedules.Agree.{set_schedule_enabled-agrees}

-- When no other transaction holds a row, on two consistent databases with the same jobs in whatever
-- order, where no two due jobs are equal in priority, run_at and created_at, a claim of the
-- PostgreSQL repository on one answers what a claim of the SQLite repository on the other answers,
-- and the jobs are again the same; and on the same tables the two ends of an attempt, the reaper
-- and the switch of a schedule of the two repositories leave the same tables and answer the same.
pub repositories_agree :
    (now : ℕ) (db db' : Db)
    → IsValid db
    → IsValid db'
    → SameJobs db db'
    → Untied now db
    → ((worker_id : ℕ)
        → let claimed = claim_next_job (λ k. false) now worker_id db' in
          let sqlite = SqliteClaim.claim_next_job now worker_id db in
          (claimed.1 ≡ sqlite.1) × SameJobs sqlite.0 claimed.0)
      × ((job_id worker_id attempt_no started_at : ℕ) (result : Json)
          → mark_succeeded now job_id worker_id attempt_no started_at result db
            ≡ SqliteFinish.mark_succeeded now job_id worker_id attempt_no started_at result db)
      × ((job : Job) (worker_id attempt_no started_at : ℕ) (error : String) (is_timeout : Bool)
            (backoff : ℕ)
          → mark_failed_attempt now job worker_id attempt_no started_at error is_timeout backoff db
            ≡ SqliteFinish.mark_failed_attempt now job worker_id attempt_no started_at error
                is_timeout backoff db)
      × ((lease_grace : ℕ)
          → recover_stale_jobs (λ k. false) now lease_grace db
            ≡ SqliteRecover.recover_stale_jobs now lease_grace db)
      × ((cron : Cron) (between : Db → Db) (schedule_id : ℕ) (enabled : Bool)
          → set_schedule_enabled cron between now schedule_id enabled db
            ≡ SqliteSchedules.set_schedule_enabled cron between now schedule_id enabled db)
repositories_agree now db db' v v' same apart = (
  λ w. claim_next_job-same now w db db' v v' same apart,
  λ k w n at_time result. mark_succeeded-agrees now k w n at_time result db v,
  λ job w n at_time error is_timeout backoff.
      mark_failed_attempt-agrees now job w n at_time error is_timeout backoff db v,
  λ grace. recover_stale_jobs-agrees now grace db v,
  λ cron between k enabled. set_schedule_enabled-agrees cron between now k enabled db,
)
