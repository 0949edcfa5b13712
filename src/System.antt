-- ===== src/System.antt =====
-- The API process and the worker threads of app/worker.py over one database: every transaction of
-- the repository is a step, and steps of different connections interleave freely.
pub mod Evolve
pub mod Entered
pub mod Steps
pub mod Asides
pub mod Commit
pub mod Claim
pub mod Safe
pub mod Trace
pub mod Runs
pub mod Ends
pub mod Round
pub mod Left
pub mod Drains
use digitalocean.Base.{
  ℕ, zero, suc, ◌+◌, ◌≡◌, Option, none, some, List, ◌==◌, if◌then◌else◌, String, Bool,
}
use digitalocean.Models.{Job, JobCreate, ScheduleCreate, RuntimeConfig, RuntimeConfigPatch}
use digitalocean.Repository.Store.{Db, Exception, insert_job}
use digitalocean.Repository.Create.{new_row, create_jobs_batch}
use digitalocean.Repository.Claim.{claim_next_job}
use digitalocean.Repository.Recover.{recover_stale_jobs}
use digitalocean.Repository.Cancel.{cancel_job, drain_queue}
use digitalocean.Repository.Schedules.{Cron, create_schedule, write_enabled, delete_schedule}
use digitalocean.Repository.Schedules.Materialize.{materialize_due_schedules}
use digitalocean.Repository.Registry.{heartbeat_worker}
use digitalocean.Config.{patch_runtime_config, initialize_runtime_config}
use digitalocean.Worker.{Outcome, finish_attempt}

-- The local variables of `process_one` while the handler runs.
pub record Lease : Type 0 where
  pub job : Job
  pub attempt_no : ℕ
  pub started_at : ℕ

-- The database, and what each worker thread is at: `none` is between two rounds. A thread that
-- starts again after a crash counts as the same one.
pub record State : Type 0 where
  pub db : Db
  pub holding : ℕ → Option Lease

abbrev pub set_holding : ℕ → Option Lease → (ℕ → Option Lease) → ℕ → Option Lease
set_holding t l holding u = if t == u then l else holding u

-- The lease of a claimed job, as `process_one` computes it.
abbrev pub lease_of : (started_at : ℕ) → Option Job → Option Lease
lease_of started_at none = none
lease_of started_at (some job) =
    some (record { job = job; attempt_no = job.attempt_count + 1; started_at = started_at })

-- The thread t runs `process_one` with the worker_id w.
abbrev pub claimed : (now started_at thread worker_id : ℕ) → State → State
claimed now started_at t w s =
    let (db', job) = claim_next_job now w s.db in
    record { db = db'; holding = set_holding t (lease_of started_at job) s.holding }

abbrev pub finished :
    (Exception → String)
    → RuntimeConfig
    → (now thread worker_id : ℕ) → Lease
    → Outcome
    → State
    → State
finished text config now t w l outcome s =
    let (db', r) = finish_attempt text config now l.job w l.attempt_no l.started_at outcome s.db in
    record { db = db'; holding = set_holding t none s.holding }

abbrev pub with_db : State → Db → State
with_db s db = record s { db = db }

-- A transaction on the other tables, which writes no job: that of create_schedule, delete_schedule,
-- patch_runtime_config and heartbeat_worker, and of initialize_runtime_config when a process starts.
-- The second repository has the same statements.
pub data Aside (cron : Cron) : Db → Db → Type 0 where
  add_schedule :
      (db : Db) (now schedule_id : ℕ) (request : ScheduleCreate) (max_retries timeout : ℕ)
      → Aside cron db (create_schedule cron now schedule_id request max_retries timeout db).0
  remove_schedule : (db : Db) (schedule_id : ℕ) → Aside cron db (delete_schedule schedule_id db).0
  patch_config :
      (db : Db) (patch : RuntimeConfigPatch) → Aside cron db (patch_runtime_config patch db).0
  boot :
      (db : Db) (default : RuntimeConfig) → Aside cron db (initialize_runtime_config default db).0
  heartbeat :
      (db : Db) (now instance_id active_threads busy_threads : ℕ)
      → Aside cron db (heartbeat_worker now instance_id active_threads busy_threads db)

-- The worker_id of a thread is the one that `_worker_loop` makes of its instance and its slot. Two
-- threads may have the same one; that they do not is a hypothesis of the theorems that need it.
module _ (text : Exception → String) (cron : Cron) (worker_id : ℕ → ℕ) where
  -- A transaction. `insert` is the one of `create_job` that writes, and `switch` the one of
  -- `set_schedule_enabled`. Only a thread that is between two rounds claims, and a thread that is
  -- lost (`crash`) never commits its attempt.
  pub data Step : State → State → Type 0 where
    insert :
        (s : State) (now job_id : ℕ) (key fingerprint : Option ℕ) (request : JobCreate)
        (max_retries timeout : ℕ) (db' : Db)
        → insert_job (new_row now job_id key fingerprint request max_retries timeout) s.db
          ≡ some db'
        → Step s (with_db s db')
    batch :
        (s : State) (now : ℕ) (uuid : ℕ → ℕ) (requests : List JobCreate) (max_retries timeout : ℕ)
        → Step s (with_db s (create_jobs_batch now uuid requests max_retries timeout s.db).0)
    materialize :
        (s : State) (now : ℕ) (uuid : ℕ → ℕ) (max_rows : ℕ)
        → Step s (with_db s (materialize_due_schedules cron now uuid max_rows s.db).0)
    cancel : (s : State) (now job_id : ℕ) → Step s (with_db s (cancel_job now job_id s.db).0)
    drain : (s : State) (now : ℕ) → Step s (with_db s (drain_queue now s.db).0)
    recover :
        (s : State) (now lease_grace : ℕ)
        → Step s (with_db s (recover_stale_jobs now lease_grace s.db).0)
    switch :
        (s : State) (now schedule_id next_run_at : ℕ) (enabled : Bool)
        → Step s (with_db s (write_enabled now schedule_id next_run_at enabled s.db).0)
    aside : (s : State) (db' : Db) → Aside cron s.db db' → Step s (with_db s db')
    claim :
        (s : State) (now started_at t : ℕ)
        → s.holding t ≡ none
        → Step s (claimed now started_at t (worker_id t) s)
    finish :
        (s : State) (config : RuntimeConfig) (now t : ℕ) (l : Lease) (outcome : Outcome)
        → s.holding t ≡ some l
        → Step s (finished text config now t (worker_id t) l outcome s)
    crash :
        (s : State) (t : ℕ) → Step s (record { db = s.db; holding = set_holding t none s.holding })

  pub data Reach (s : State) : State → Type 0 where
    here : Reach s s
    next : {t u : State} → Reach s t → Step t u → Reach s u
