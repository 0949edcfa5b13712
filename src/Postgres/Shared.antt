-- ===== src/Postgres/Shared.antt =====
-- The methods of PostgresJobRepository in app/postgres_repository.py whose statements are those of
-- the SQLite repository, but for the placeholders. A UniqueViolation is the integrity error.
use digitalocean.Base.{ℕ, Bool, Option, List}
use digitalocean.Models.{
  Job, JobCreate, DeadLetter, QueueDepth, RuntimeConfig, RuntimeConfigPatch, Schedule,
  ScheduleCreate, WorkerStatus,
}
use digitalocean.Config
use digitalocean.Repository.Store
use digitalocean.Repository.Store.{Db, Result}
use digitalocean.Repository.Create
use digitalocean.Repository.Create.{Digest}
use digitalocean.Repository.Cancel
use digitalocean.Repository.Depth
use digitalocean.Repository.Registry
use digitalocean.Repository.Schedules
use digitalocean.Repository.Schedules.{Cron}
use digitalocean.Rows as Rows
use digitalocean.Rows.{Loads, JobRow, JobDict}
use digitalocean.Rows.Schedules as RowsSchedules
use digitalocean.Rows.Schedules.{ScheduleRow, ScheduleView}

-- The tables of `init_schema`: the columns, keys and indexes are those of the SQLite repository.
abbrev pub Tables : Type 0
Tables = Db

abbrev pub initialize_runtime_config : RuntimeConfig → Db → Db × Result RuntimeConfig
initialize_runtime_config default db = Config.initialize_runtime_config default db

abbrev pub get_runtime_config : Db → Result RuntimeConfig
get_runtime_config db = Config.get_runtime_config db

-- `FOR UPDATE` keeps the row from other writers until the transaction ends.
abbrev pub patch_runtime_config : RuntimeConfigPatch → Db → Db × Option (Result RuntimeConfig)
patch_runtime_config patch db = Config.patch_runtime_config patch db

abbrev pub heartbeat_worker : (now instance_id active_threads busy_threads : ℕ) → Db → Db
heartbeat_worker now instance_id active_threads busy_threads db =
    Registry.heartbeat_worker now instance_id active_threads busy_threads db

abbrev pub worker_runtime_status : (now max_age : ℕ) → Db → WorkerStatus
worker_runtime_status now max_age db = Registry.worker_runtime_status now max_age db

abbrev pub create_job :
    Digest
    → (before after : Db → Db) → (now job_id : ℕ) → JobCreate
    → (max_retries timeout : ℕ) → (idempotency_key : Option ℕ) → Db
    → Db × Result (Option Job)
create_job digest before after now job_id request max_retries timeout key db =
    Create.create_job digest before after now job_id request max_retries timeout key db

-- One connection inserts all rows and commits at the end.
abbrev pub create_jobs_batch :
    ℕ → (ℕ → ℕ) → List JobCreate → (max_retries timeout : ℕ) → Db → Db × Result (List ℕ)
create_jobs_batch now uuid requests max_retries timeout db =
    Create.create_jobs_batch now uuid requests max_retries timeout db

abbrev pub get_job : ℕ → Db → Option Job
get_job job_id db = Store.get_job job_id db

abbrev pub get_job_by_idempotency_key : ℕ → Db → Option Job
get_job_by_idempotency_key key db = Store.get_job_by_idempotency_key key db

abbrev pub list_scheduled_jobs : (now max_rows : ℕ) → Db → List Job
list_scheduled_jobs now max_rows db = Depth.list_scheduled_jobs now max_rows db

abbrev pub create_schedule :
    Cron
    → (now schedule_id : ℕ) → ScheduleCreate
    → (max_retries timeout : ℕ) → Db
    → Db × Result (Option Schedule)
create_schedule cron now schedule_id request max_retries timeout db =
    Schedules.create_schedule cron now schedule_id request max_retries timeout db

abbrev pub get_schedule : ℕ → Db → Option Schedule
get_schedule schedule_id db = Schedules.get_schedule schedule_id db

abbrev pub list_schedules : Db → List Schedule
list_schedules db = Schedules.list_schedules db

abbrev pub delete_schedule : ℕ → Db → Db × Bool
delete_schedule schedule_id db = Schedules.delete_schedule schedule_id db

abbrev pub cancel_job : (now job_id : ℕ) → Db → Db × Option Job
cancel_job now job_id db = Cancel.cancel_job now job_id db

abbrev pub drain_queue : ℕ → Db → Db × ℕ
drain_queue now db = Cancel.drain_queue now db

abbrev pub queue_depth : (now : ℕ) → (between : Db → Db) → Db → QueueDepth
queue_depth now between db = Depth.queue_depth now between db

abbrev pub list_dead_letters : ℕ → Db → List DeadLetter
list_dead_letters max_rows db = Depth.list_dead_letters max_rows db

abbrev pub latency_seconds : (max_rows : ℕ) → Db → List ℕ
latency_seconds max_rows db = Depth.latency_seconds max_rows db

abbrev pub oldest_queued_age_seconds : (now asked : ℕ) → Db → Option ℕ
oldest_queued_age_seconds now asked db = Depth.oldest_queued_age_seconds now asked db

abbrev pub job_from_row : Loads → JobRow → Option JobDict
job_from_row loads row = Rows.job_from_row loads row

-- `enabled` is a Boolean column here, which `bool` keeps: 0 or 1 in the row.
abbrev pub schedule_from_row : Loads → ScheduleRow → Option ScheduleView
schedule_from_row loads row = RowsSchedules.schedule_from_row loads row
