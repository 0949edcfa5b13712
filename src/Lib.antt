-- ===== src/Lib.antt =====
-- PulseQueue: a job queue over one SQLite or PostgreSQL database. An HTTP API submits, cancels and
-- drains jobs and keeps recurring schedules and the runtime configuration; the threads of a worker
-- pool claim due jobs, run a handler on them under a timeout, and commit the end of each attempt;
-- any worker also turns due schedules into jobs and takes back the jobs of workers that were lost.
-- All parts meet in the tables of the database, and every method of the repository is a transaction
-- on them.
--
-- Which file models what:
--
--   Base           shared names, tests on numbers and options, Python's integers
--   Models         app/models.py, and the rows of the tables of app/repository.py
--   Sql            the SQL that the repository uses: SELECT, UPDATE, DELETE, COUNT, ORDER BY, LIMIT
--   Repository     app/repository.py, class JobRepository:
--     Store        init_schema (tables, unique indexes, foreign keys), the inserts, get_job,
--                  get_job_by_idempotency_key
--     Create       job_request_fingerprint, create_job, create_jobs_batch
--     Claim        claim_next_job
--     Finish       mark_succeeded, mark_failed_attempt
--     Recover      recover_stale_jobs
--     Cancel       cancel_job, drain_queue
--     Depth        queue_depth, list_scheduled_jobs, list_dead_letters, latency_seconds,
--                  oldest_queued_age_seconds
--     Registry     heartbeat_worker, worker_runtime_status
--     Schedules    create_schedule, get_schedule, list_schedules, set_schedule_enabled,
--                  delete_schedule; Schedules/Materialize has materialize_due_schedules
--     Invariant    the consistency of jobs, job_attempts and dead_letters, and what keeps it
--   Postgres       app/postgres_repository.py, class PostgresJobRepository:
--     Shared       the methods whose statements are those of the SQLite repository
--     Claim, Finish, Recover, Schedules
--                  claim_next_job; mark_succeeded, mark_failed_attempt; recover_stale_jobs;
--                  set_schedule_enabled, materialize_due_schedules
--     Locks        several claims at once, each between its SELECT and its UPDATE
--     System       all transactions with the open claims and the leases of the workers
--     Round        process_one over these methods
--   Config         merge_runtime_config, get_, initialize_ and patch_runtime_config of
--                  app/repository.py, and RuntimeConfigStore of app/config_store.py
--   DbTime         the texts of to_db_time and parse_db_time of app/repository.py; DbTime/Calendar
--                  the calendar of datetime; DbTime/Zone values with an offset, astimezone, and
--                  normalize_run_at of app/models.py
--   Rows           the rows as SQL stores them: _job_from_row, _schedule_from_row, JobView and
--                  ScheduleView; Rows/Queries and Rows/Writes the claim, the insert, cancel_job,
--                  drain_queue and list_scheduled_jobs on such rows
--   Scheduling     next_cron_run of app/scheduling.py
--   Settings       app/settings.py, app/repository_factory.py, from_settings of
--                  app/config_store.py, the start of a process in main of app/worker.py, and
--                  create_app of app/main.py
--   Worker         process_one, _record_failure and the backoff of app/worker.py; Worker/Pool the
--                  threads: start, stop, reconcile, _ensure_threads_locked; Worker/Gate the timer
--                  and the lock of the _maybe_* methods; Worker/Sync these methods, resize and a
--                  turn of _worker_loop; Worker/Timeout _run_with_timeout, Worker/Busy the
--                  number of busy workers
--   Api            the handlers of app/main.py that submit, cancel and schedule jobs and that read
--                  and patch the configuration, with their status codes; Api/LoadTest the load
--                  test, Api/Metrics the metrics and the reports
--   Handler        execute_job of app/handler.py
--   System         the transactions of all workers and of the API as the steps of one state: the
--                  database, and the lease that each worker thread holds while its handler runs;
--                  System/Asides the transactions that write no job
--   Tests          the theorems at work on sample tables
--
-- How the state corresponds. A table is the list of its rows in the order of insertion, and rows
-- that ORDER BY leaves equal keep that order; SQL leaves it open. A method is a function from the
-- tables to the tables and its answer; an exception is a value of Result, with the tables as the
-- rolled back transaction leaves them. Identifiers, keys, fingerprints, worker names and cron
-- expressions are only compared, and are numbers (0 is the empty text); error texts are String. A
-- column of JSON holds the value that it decodes to. Times are microseconds of the calendar in UTC
-- (DbTime.Calendar.micros); durations are microseconds as well, so the sums and comparisons of the
-- source are exact here; the floats of percentile are an argument (Floats). The autoincremented id
-- of job_attempts is not kept, nor is the column timezone, which is always UTC. Rows has the
-- columns as texts, says which of its rows stands for which job of the model, and has the claim,
-- the insert, the cancellations and the views on them; the other methods are modelled on the rows
-- of the model only.
--
-- What the code does not define is an argument: the current time, fresh UUIDs, the digest SHA-256
-- (Digest), croniter (Croniter; in the schedules next_cron_run is Cron, where none is
-- InvalidCronExpressionError), json.dumps and json.loads, the job handler, the text of an
-- exception, what Python reads from a text as a number, and what other connections commit between
-- two transactions of one call (a function on the tables). SQLite's write lock makes a transaction
-- atomic, so that an interleaving is a sequence of steps (System.Step, System.Reach). A step of an
-- API call is its transaction that writes; lookups after it only make its answer. A thread is a
-- number, and its worker_id a function of it: _ensure_threads_locked may give two live threads one
-- slot and so one worker_id, which the fence on locked_by cannot tell apart, so that different
-- worker_ids are a hypothesis (System.Safe.IsNaming) of the theorems on interleavings that need it.
-- On PostgreSQL, `FOR UPDATE SKIP LOCKED` passes over the rows that other open transactions hold:
-- they are an argument (`locked`), or in Postgres.Locks the rows of the open claims. PostgreSQL
-- lets no transaction write a row that another holds, which is a condition of the steps of the
-- others there; other statements than those of a claim are one step together with their commit.
--
-- Loops run over the rows of a query, by recursion on the list, so no bound or fuel is needed. The
-- rounds of a worker are counted (System.Drains), and the number that is enough is a result.
--
-- Not modelled: the reading of the environment, the executor of _run_with_timeout, whose call goes
-- on after a timeout, and the dashboard, which is a constant page. The HTTP routing, the limits on
-- the lengths of texts, and the error texts of HTTP answers are left out. The migration that adds
-- columns to older tables is not modelled: the tables have their current columns.
pub mod Base
pub mod Models
pub mod Sql
pub mod Repository
pub mod Rows
pub mod Scheduling
pub mod Config
pub mod DbTime
pub mod Settings
pub mod Postgres
pub mod Api
pub mod Worker
pub mod Handler
pub mod System
mod Tests
