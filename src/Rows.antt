-- ===== src/Rows.antt =====
-- The rows of `jobs` and `recurring_schedules` as SQL stores them, with texts for the times, the
-- statuses and the JSON: what the INSERT statements write, `_job_from_row` and `_schedule_from_row`
-- of app/repository.py, and the views of app/models.py that the API answers. `json.dumps` and
-- `json.loads` are arguments; `none` is an exception (ValueError).
pub mod Stored
pub mod Views
pub mod Queries
pub mod Claims
pub mod Writes
pub mod Refines
pub mod Schedules
use mathlib.Core.Option
use digitalocean.Base.{
  ◌>>=◌, ℕ, ℤ, String, Bool, true, false, Option, none, some, List, [], ◌∷◌, ◌==◌, ◌&&◌,
  if◌then◌else◌, or_else,
}
use digitalocean.Models.{
  Json, null, is_dict, JobStatus, queued, running, succeeded, failed, dead_lettered, cancelled,
}
use digitalocean.DbTime.{DateTime, isoformat, parse_db_time}

-- A text, as its characters' codes.
abbrev pub Text : Type 0
Text = List ℕ

abbrev pub Loads : Type 0
Loads = Text → Option Json

-- A row of `jobs`.
pub record JobRow : Type 0 where
  pub id : ℕ
  pub idempotency_key : Option ℕ
  pub request_fingerprint : Option ℕ
  pub schedule_id : Option ℕ
  pub scheduled_for : Option Text
  pub status : Text
  pub payload : Text
  pub result : Option Text
  pub priority : ℤ
  pub max_retries : ℕ
  pub timeout_seconds : ℕ
  pub attempt_count : ℕ
  pub last_error : Option String
  pub run_at : Text
  pub locked_by : Option ℕ
  pub locked_at : Option Text
  pub created_at : Text
  pub updated_at : Text
  pub finished_at : Option Text

-- The values of `JobStatus`.
abbrev pub status_text : JobStatus → Text
status_text queued = 113 ∷ 117 ∷ 101 ∷ 117 ∷ 101 ∷ 100 ∷ []
status_text running = 114 ∷ 117 ∷ 110 ∷ 110 ∷ 105 ∷ 110 ∷ 103 ∷ []
status_text succeeded = 115 ∷ 117 ∷ 99 ∷ 99 ∷ 101 ∷ 101 ∷ 100 ∷ 101 ∷ 100 ∷ []
status_text failed = 102 ∷ 97 ∷ 105 ∷ 108 ∷ 101 ∷ 100 ∷ []
status_text dead_lettered =
    100 ∷ 101 ∷ 97 ∷ 100 ∷ 95 ∷ 108 ∷ 101 ∷ 116 ∷ 116 ∷ 101 ∷ 114 ∷ 101 ∷ 100 ∷ []
status_text cancelled = 99 ∷ 97 ∷ 110 ∷ 99 ∷ 101 ∷ 108 ∷ 108 ∷ 101 ∷ 100 ∷ []

abbrev pub is_text : Text → Text → Bool
is_text [] [] = true
is_text (a ∷ as_) (b ∷ bs) = a == b && is_text as_ bs
is_text _ _ = false

-- `JobStatus(value)`
abbrev status_among : List JobStatus → Text → Option JobStatus
status_among [] text = none
status_among (s ∷ statuses) text =
    if is_text (status_text s) text then some s else status_among statuses text

unfoldable pub to_status : Text → Option JobStatus
to_status = status_among (queued ∷ running ∷ succeeded ∷ failed ∷ dead_lettered ∷ cancelled ∷ [])

-- The parameters of the INSERT in `create_job`; the columns that it does not name are NULL.
abbrev pub inserted_row :
    (dumps : Json → Text)
    → (now : DateTime) → (job_id : ℕ) → (idempotency_key fingerprint : Option ℕ) → Json
    → (priority : ℤ) → (run_at : Option DateTime) → (max_retries timeout : ℕ) → JobRow
inserted_row dumps now job_id key fingerprint payload priority run_at max_retries timeout = record {
  id = job_id;
  idempotency_key = key;
  request_fingerprint = fingerprint;
  schedule_id = none;
  scheduled_for = none;
  status = status_text queued;
  payload = dumps payload;
  result = none;
  priority = priority;
  max_retries = max_retries;
  timeout_seconds = timeout;
  attempt_count = 0;
  last_error = none;
  run_at = isoformat (or_else run_at now);
  locked_by = none;
  locked_at = none;
  created_at = isoformat now;
  updated_at = isoformat now;
  finished_at = none;
}

-- The dictionary that `_job_from_row` answers.
pub record JobDict : Type 0 where
  pub id : ℕ
  pub idempotency_key : Option ℕ
  pub request_fingerprint : Option ℕ
  pub schedule_id : Option ℕ
  pub scheduled_for : Option DateTime
  pub status : Text
  pub payload : Json
  pub result : Option Json
  pub priority : ℤ
  pub max_retries : ℕ
  pub timeout_seconds : ℕ
  pub attempt_count : ℕ
  pub last_error : Option String
  pub run_at : DateTime
  pub locked_by : Option ℕ
  pub locked_at : Option DateTime
  pub created_at : DateTime
  pub updated_at : DateTime
  pub finished_at : Option DateTime

-- `parse_db_time` of a column that is not NULL, and of one that may be.
abbrev pub time_of : Text → Option DateTime
time_of text = parse_db_time (some text)

abbrev pub time_or_null : Option Text → Option (Option DateTime)
time_or_null none = some none
time_or_null (some text) = Option.map some (time_of text)

-- `json.loads(row["result"]) if row["result"] else None`: NULL and the empty text are false.
abbrev pub result_of : Loads → Option Text → Option (Option Json)
result_of loads none = some none
result_of loads (some []) = some none
result_of loads (some (c ∷ cs)) = Option.map some (loads (c ∷ cs))

-- `_job_from_row`
unfoldable pub job_from_row : Loads → JobRow → Option JobDict
job_from_row loads row = do
  scheduled_for ← time_or_null row.scheduled_for
  payload ← loads row.payload
  result ← result_of loads row.result
  run_at ← time_of row.run_at
  locked_at ← time_or_null row.locked_at
  created_at ← time_of row.created_at
  updated_at ← time_of row.updated_at
  finished_at ← time_or_null row.finished_at
  some (record {
    id = row.id;
    idempotency_key = row.idempotency_key;
    request_fingerprint = row.request_fingerprint;
    schedule_id = row.schedule_id;
    scheduled_for = scheduled_for;
    status = row.status;
    payload = payload;
    result = result;
    priority = row.priority;
    max_retries = row.max_retries;
    timeout_seconds = row.timeout_seconds;
    attempt_count = row.attempt_count;
    last_error = row.last_error;
    run_at = run_at;
    locked_by = row.locked_by;
    locked_at = locked_at;
    created_at = created_at;
    updated_at = updated_at;
    finished_at = finished_at;
  })

-- `JobView`
pub record JobView : Type 0 where
  pub id : ℕ
  pub idempotency_key : Option ℕ
  pub schedule_id : Option ℕ
  pub scheduled_for : Option DateTime
  pub status : JobStatus
  pub payload : Json
  pub result : Option Json
  pub priority : ℤ
  pub max_retries : ℕ
  pub timeout_seconds : ℕ
  pub attempt_count : ℕ
  pub last_error : Option String
  pub run_at : DateTime
  pub locked_by : Option ℕ
  pub locked_at : Option DateTime
  pub created_at : DateTime
  pub updated_at : DateTime
  pub finished_at : Option DateTime

-- `JobView(**job)`: the fingerprint is not shown; `job_view` validates the status, the payload and
-- the result.
abbrev pub view_of : JobDict → JobStatus → JobView
view_of job status = record {
  id = job.id;
  idempotency_key = job.idempotency_key;
  schedule_id = job.schedule_id;
  scheduled_for = job.scheduled_for;
  status = status;
  payload = job.payload;
  result = job.result;
  priority = job.priority;
  max_retries = job.max_retries;
  timeout_seconds = job.timeout_seconds;
  attempt_count = job.attempt_count;
  last_error = job.last_error;
  run_at = job.run_at;
  locked_by = job.locked_by;
  locked_at = job.locked_at;
  created_at = job.created_at;
  updated_at = job.updated_at;
  finished_at = job.finished_at;
}

-- `Optional[Dict[str, Any]]`; JSON's null is None.
abbrev pub is_result : Option Json → Bool
is_result none = true
is_result (some null) = true
is_result (some value) = is_dict value

unfoldable pub job_view : JobDict → Option JobView
job_view job =
    if is_dict job.payload && is_result job.result
    then Option.map (view_of job) (to_status job.status)
    else none
