-- ===== src/Models.antt =====
-- app/models.py and the rows of the tables of app/repository.py: the enumerations, the request
-- and configuration models, and a record for a row of each table.
use digitalocean.Base.{ℕ, ℤ, String, Bool, true, false, Option}

-- `JobStatus`
pub data JobStatus : Type 0 where
  queued running succeeded failed dead_lettered cancelled : JobStatus

-- `AttemptStatus`, with a prefix where `JobStatus` has the same word.
pub data AttemptStatus : Type 0 where
  attempt_succeeded attempt_failed timed_out abandoned : AttemptStatus

-- The values of Python's `json`. A float is given in millionths.
mutual
  pub data Json : Type 0 where
    null : Json
    bool : Bool → Json
    num : ℤ → Json
    float : ℤ → Json
    str : String → Json
    arr : JsonItems → Json
    obj : JsonFields → Json

  pub data JsonItems : Type 0 where
    nil : JsonItems
    cons : Json → JsonItems → JsonItems

  pub data JsonFields : Type 0 where
    end : JsonFields
    field : String → Json → JsonFields → JsonFields

-- `Dict[str, Any]`
abbrev pub is_dict : Json → Bool
is_dict (obj fields) = true
is_dict _ = false

-- `JobCreate`
pub record JobCreate : Type 0 where
  pub payload : Json
  pub priority : ℤ
  pub max_retries : Option ℕ
  pub timeout_seconds : Option ℕ
  pub run_at : Option ℕ

-- A row of `jobs`.
pub record Job : Type 0 where
  pub id : ℕ
  pub idempotency_key : Option ℕ
  pub request_fingerprint : Option ℕ
  pub schedule_id : Option ℕ
  pub scheduled_for : Option ℕ
  pub status : JobStatus
  pub payload : Json
  pub result : Option Json
  pub priority : ℤ
  pub max_retries : ℕ
  pub timeout_seconds : ℕ
  pub attempt_count : ℕ
  pub last_error : Option String
  pub run_at : ℕ
  pub locked_by : Option ℕ
  pub locked_at : Option ℕ
  pub created_at : ℕ
  pub updated_at : ℕ
  pub finished_at : Option ℕ

-- A row of `job_attempts`. Its generated id is the row's place in the table.
pub record Attempt : Type 0 where
  pub job_id : ℕ
  pub attempt_no : ℕ
  pub worker_id : ℕ
  pub status : AttemptStatus
  pub started_at : ℕ
  pub finished_at : ℕ
  pub error : Option String

-- A row of `dead_letters`.
pub record DeadLetter : Type 0 where
  pub job_id : ℕ
  pub payload : Json
  pub last_error : Option String
  pub attempt_count : ℕ
  pub dead_lettered_at : ℕ

-- `ScheduleCreate`
pub record ScheduleCreate : Type 0 where
  pub name : String
  pub cron_expression : ℕ
  pub payload : Json
  pub priority : ℤ
  pub max_retries : Option ℕ
  pub timeout_seconds : Option ℕ

-- A row of `recurring_schedules`. Its timezone column is always "UTC".
pub record Schedule : Type 0 where
  pub id : ℕ
  pub name : String
  pub cron_expression : ℕ
  pub payload : Json
  pub priority : ℤ
  pub max_retries : ℕ
  pub timeout_seconds : ℕ
  pub enabled : Bool
  pub next_run_at : ℕ
  pub last_run_at : Option ℕ
  pub created_at : ℕ
  pub updated_at : ℕ

-- A row of `worker_instances`.
pub record Instance : Type 0 where
  pub instance_id : ℕ
  pub active_threads : ℕ
  pub busy_threads : ℕ
  pub last_seen_at : ℕ

-- The answer of `worker_runtime_status`.
pub record WorkerStatus : Type 0 where
  pub instances : ℕ
  pub active_threads : ℕ
  pub busy_threads : ℕ

-- `QueueDepth`
pub record QueueDepth : Type 0 where
  pub queued : ℕ
  pub running : ℕ
  pub succeeded : ℕ
  pub failed : ℕ
  pub dead_lettered : ℕ
  pub cancelled : ℕ
  pub total : ℕ
  pub due_queued : ℕ
  pub scheduled_queued : ℕ

-- `RuntimeConfig`
pub record RuntimeConfig : Type 0 where
  pub default_max_retries : ℕ
  pub default_timeout_seconds : ℕ
  pub max_timeout_seconds : ℕ
  pub worker_concurrency : ℕ
  pub backoff_base_seconds : ℕ
  pub backoff_max_seconds : ℕ

-- `RuntimeConfigPatch`
pub record RuntimeConfigPatch : Type 0 where
  pub default_max_retries : Option ℕ
  pub default_timeout_seconds : Option ℕ
  pub max_timeout_seconds : Option ℕ
  pub worker_concurrency : Option ℕ
  pub backoff_base_seconds : Option ℕ
  pub backoff_max_seconds : Option ℕ

-- Equality of statuses, SQL's `status = ?`.
abbrev pub is_status : JobStatus → JobStatus → Bool
is_status queued queued = true
is_status running running = true
is_status succeeded succeeded = true
is_status failed failed = true
is_status dead_lettered dead_lettered = true
is_status cancelled cancelled = true
is_status _ _ = false
