-- ===== src/Worker.antt =====
-- app/worker.py: one round of a worker thread, and the backoff of a retry.
pub mod Backoff
pub mod Pool
pub mod Gate
pub mod Sync
pub mod Busy
pub mod Timeout
use digitalocean.Base.{ℕ, ◌+◌, ◌-◌, ◌*◌, ◌^◌, min, String, Bool, true, false, Option, none, some}
use digitalocean.Models.{Job, Json, RuntimeConfig}
use digitalocean.Repository.Store.{Db, Exception, Result, ok, raise}
use digitalocean.Repository.Claim.{claim_next_job}
use digitalocean.Repository.Finish.{mark_succeeded, mark_failed_attempt}

-- How `_run_with_timeout` ends: the handler's result, its exception, or a timeout.
pub data Outcome : Type 0 where
  returned : Json → Outcome
  raised : String → Outcome
  expired : Outcome

-- `min(base * 2 ** max(attempt_no - 1, 0), max)`
unfoldable pub backoff_seconds : RuntimeConfig → ℕ → ℕ
backoff_seconds config attempt_no =
    min (config.backoff_base_seconds * 2 ^ (attempt_no - 1)) config.backoff_max_seconds

-- `_record_failure`
unfoldable pub record_failure :
    RuntimeConfig
    → (now : ℕ) → Job
    → (worker_id attempt_no started_at : ℕ) → String
    → (is_timeout : Bool) → Db
    → Db × Result (Option Job)
record_failure config now job worker_id attempt_no started_at error is_timeout db =
    mark_failed_attempt now job worker_id attempt_no started_at error is_timeout
      (backoff_seconds config attempt_no) db

-- What `except Exception` makes of an exception of `mark_succeeded`; `str(exc)` is an argument.
abbrev pub or_failure :
    (Exception → String)
    → (String → Db → Db × Result (Option Job))
    → Db × Result (Option Job)
    → Db × Result (Option Job)
or_failure text record_it (db, ok job) = (db, ok job)
or_failure text record_it (db, raise e) = record_it (text e) db

-- The `try` statement of `process_one`, when the attempt has ended.
unfoldable pub finish_attempt :
    (Exception → String)
    → RuntimeConfig
    → (now : ℕ) → Job
    → (worker_id attempt_no started_at : ℕ) → Outcome
    → Db
    → Db × Result (Option Job)
finish_attempt text config now job worker_id attempt_no started_at (returned result) db =
    or_failure text
      (λ error. record_failure config now job worker_id attempt_no started_at error false)
      (mark_succeeded now job.id worker_id attempt_no started_at result db)
finish_attempt text config now job worker_id attempt_no started_at (raised error) db =
    record_failure config now job worker_id attempt_no started_at error false db
finish_attempt text config now job worker_id attempt_no started_at expired db =
    record_failure config now job worker_id attempt_no started_at "attempt timed out" true db

-- `process_one`. The handler is an argument, and so is what others commit while it runs. `none`
-- says that no job was due.
abbrev pub finish_claimed :
    (Exception → String)
    → RuntimeConfig
    → (handler : Job → ℕ → Outcome) → (others : Db → Db) → (started_at now worker_id : ℕ)
    → Db × Option Job
    → Db × Option (Result (Option Job))
finish_claimed text config handler others started_at now worker_id (db, none) = (db, none)
finish_claimed text config handler others started_at now worker_id (db, some job) =
    let attempt_no = job.attempt_count + 1 in
    let (db', r) =
      finish_attempt text config now job worker_id attempt_no started_at (handler job attempt_no)
        (others db) in
    (db', some r)

unfoldable pub process_one :
    (Exception → String)
    → RuntimeConfig
    → (handler : Job → ℕ → Outcome) → (others : Db → Db) → (claimed_at started_at now worker_id : ℕ)
    → Db
    → Db × Option (Result (Option Job))
process_one text config handler others claimed_at started_at now worker_id db =
    finish_claimed text config handler others started_at now worker_id
      (claim_next_job claimed_at worker_id db)
