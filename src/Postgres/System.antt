-- ===== src/Postgres/System.antt =====
-- The API process and the worker threads of app/worker.py over PostgreSQL: the methods of
-- app/postgres_repository.py as steps. A claim is the two statements of Postgres.Locks, and steps of
-- other connections come in between; PostgreSQL lets none of them write a row that a claim has
-- locked, and `SKIP LOCKED` passes over it.
pub mod Attempt
pub mod Spares
pub mod Safe
pub mod Runs
use digitalocean.Base.{
  ℕ, ◌≡◌, String, Bool, true, false, Option, none, some, List, [], ◌∷◌, ◌++◌, ◌||◌,
}
use digitalocean.Models.{Job, Json, JobCreate, RuntimeConfig}
use digitalocean.Sql.{find, delete}
use digitalocean.Repository.Store.{Db, Exception, Result, insert_job}
use digitalocean.Repository.Create.{new_row}
use digitalocean.Repository.Schedules.{Cron}
use digitalocean.Worker.{Outcome, returned, raised, expired, or_failure, backoff_seconds}
use digitalocean.System.{Lease, set_holding, lease_of, Aside}
use digitalocean.Postgres.Shared.{create_jobs_batch, cancel_job, drain_queue}
use digitalocean.Postgres.Claim.{next_free, claim_row}
use digitalocean.Postgres.Finish.{mark_succeeded, mark_failed_attempt}
use digitalocean.Postgres.Recover.{recover_stale_jobs}
use digitalocean.Postgres.Schedules.{write_enabled, materialize_due_schedules}
use digitalocean.Postgres.Locks as Locks
use digitalocean.Postgres.Locks.{Claim, of_row, is_locked, written}

-- `_record_failure` and the `try` statement of `process_one`, with this repository.
unfoldable pub record_failure :
    RuntimeConfig
    → (now : ℕ) → Job
    → (worker_id attempt_no started_at : ℕ) → String
    → (is_timeout : Bool) → Db
    → Db × Result (Option Job)
record_failure config now job worker_id attempt_no started_at error is_timeout db =
    mark_failed_attempt now job worker_id attempt_no started_at error is_timeout
      (backoff_seconds config attempt_no) db

unfoldable pub finish_attempt :
    (Exception → String)
    → RuntimeConfig
    → (now : ℕ) → Job
    → (worker_id attempt_no started_at : ℕ) → Outcome
    → Db
    → Db × Result (Option Job)
finish_attempt text config now job worker_id attempt_no started_at (returned result) db =
    or_failure text
      (λ error. record_failure config now job worker_id attempt_no started_at error false)
      (mark_succeeded now job.id worker_id attempt_no started_at result db)
finish_attempt text config now job worker_id attempt_no started_at (raised error) db =
    record_failure config now job worker_id attempt_no started_at error false db
finish_attempt text config now job worker_id attempt_no started_at expired db =
    record_failure config now job worker_id attempt_no started_at "attempt timed out" true db

-- The tables with the open claims, and what each worker thread is at.
pub record State : Type 0 where
  pub tables : Locks.State
  pub holding : ℕ → Option Lease

abbrev pub with_db : State → Db → State
with_db s db = record s { tables = record s.tables { db = db } }

abbrev pub with_claims : State → List Claim → State
with_claims s claims = record s { tables = record s.tables { claims = claims } }

-- The rows that claims hold, and those that other transactions hold.
abbrev pub is_held : State → (held : ℕ → Bool) → ℕ → Bool
is_held s held k = is_locked s.tables.claims k || held k

-- The second statement of a claim commits, and its worker takes the row that it returned.
abbrev pub handed_out : (started_at thread : ℕ) → State → Claim → State
handed_out started_at t s c = record {
  tables = written s.tables c;
  holding =
      set_holding t (lease_of started_at (claim_row c.started c.worker s.tables.db (some c.row)).1)
        s.holding;
}

abbrev pub finished :
    (Exception → String)
    → RuntimeConfig
    → (now thread worker_id : ℕ) → Lease
    → Outcome
    → State
    → State
finished text config now t w l outcome s =
    let (db', r) =
      finish_attempt text config now l.job w l.attempt_no l.started_at outcome s.tables.db in
    record { tables = record s.tables { db = db' }; holding = set_holding t none s.holding }

-- The worker_id of a thread is the one that `_worker_loop` makes of its instance and its slot.
module _ (text : Exception → String) (cron : Cron) (worker_id : ℕ → ℕ) where
  -- A transaction commits, or a claim gets to its next statement. `held` are the rows that
  -- transactions other than the claims have locked at that moment.
  pub data Step : State → State → Type 0 where
    insert :
        (s : State) (now job_id : ℕ) (key fingerprint : Option ℕ) (request : JobCreate)
        (max_retries timeout : ℕ) (db' : Db)
        → insert_job (new_row now job_id key fingerprint request max_retries timeout) s.tables.db
          ≡ some db'
        → Step s (with_db s db')
    batch :
        (s : State) (now : ℕ) (uuid : ℕ → ℕ) (requests : List JobCreate) (max_retries timeout : ℕ)
        → Step s (with_db s (create_jobs_batch now uuid requests max_retries timeout s.tables.db).0)
    materialize :
        (s : State) (locked : ℕ → Bool) (now : ℕ) (uuid : ℕ → ℕ) (max_rows : ℕ)
        → Step s (with_db s (materialize_due_schedules cron locked now uuid max_rows s.tables.db).0)
    cancel :
        (s : State) (now job_id : ℕ)
        → is_locked s.tables.claims job_id ≡ false
        → Step s (with_db s (cancel_job now job_id s.tables.db).0)
    drain :
        (s : State) (now : ℕ)
        → ((k : ℕ) → is_locked s.tables.claims k ≡ false)
        → Step s (with_db s (drain_queue now s.tables.db).0)
    recover :
        (s : State) (held : ℕ → Bool) (now lease_grace : ℕ)
        → Step s (with_db s (recover_stale_jobs (is_held s held) now lease_grace s.tables.db).0)
    switch :
        (s : State) (now schedule_id next_run_at : ℕ) (enabled : Bool)
        → Step s (with_db s (write_enabled now schedule_id next_run_at enabled s.tables.db).0)
    aside : (s : State) (db' : Db) → Aside cron s.tables.db db' → Step s (with_db s db')
    choose :
        (s : State) (held : ℕ → Bool) (now t : ℕ) (row : Job)
        → s.holding t ≡ none
        → next_free (is_held s held) now s.tables.db.jobs ≡ some row
        → Step s (
            with_claims s
              (s.tables.claims ++ record { worker = worker_id t; started = now; row = row } ∷ []))
    write :
        (s : State) (started_at t : ℕ) (c : Claim)
        → find (of_row c.row.id) s.tables.claims ≡ some c
        → c.worker ≡ worker_id t
        → Step s (handed_out started_at t s c)
    abort : (s : State) (k : ℕ) → Step s (with_claims s (delete (of_row k) s.tables.claims))
    finish :
        (s : State) (config : RuntimeConfig) (now t : ℕ) (l : Lease) (outcome : Outcome)
        → s.holding t ≡ some l
        → Step s (finished text config now t (worker_id t) l outcome s)
    crash : (s : State) (t : ℕ) → Step s (record s { holding = set_holding t none s.holding })

  pub data Reach (s : State) : State → Type 0 where
    here : Reach s s
    next : {t u : State} → Reach s t → Step t u → Reach s u
