-- ===== src/Rows/Stored.antt =====
-- Which stored row stands for which job of the model, where times are numbers.
use mathlib.Core.Option
use digitalocean.Base.{ℕ, ◌≡◌, refl, Option, none, some, [], ◌∷◌, or_else, ap}
use digitalocean.Models.{
  Job, JobCreate, Json, JobStatus, queued, running, succeeded, failed, dead_lettered, cancelled,
}
use digitalocean.DbTime.{DateTime, IsDateTime, isoformat}
use digitalocean.DbTime.Calendar.{micros, IsDate}
use digitalocean.DbTime.RoundTrip.{parse_db_time-isoformat}
use digitalocean.Repository.Create.{new_row}
use digitalocean.Rows.{
  Text, Loads, JobRow, status_text, to_status, inserted_row, time_of, time_or_null, result_of,
}

-- A datetime of the calendar.
abbrev pub IsTime : DateTime → Type 0
IsTime t = IsDateTime t × IsDate t

-- The text of a time.
abbrev pub Writes : Text → ℕ → Type 0
Writes text n = (t : DateTime) × IsTime t × (text ≡ isoformat t) × (micros t ≡ n)

abbrev pub WritesAny : Option Text → Option ℕ → Type 0
WritesAny none none = Unit
WritesAny (some text) (some n) = Writes text n
WritesAny _ _ = ⊥

-- The text of a result, which is not empty.
abbrev pub Holds : Loads → Option Text → Option Json → Type 0
Holds loads none none = Unit
Holds loads (some (c ∷ cs)) (some result) = loads (c ∷ cs) ≡ some result
Holds loads _ _ = ⊥

pub record IsStored (loads : Loads) (row : JobRow) (j : Job) : Type 0 where
  pub id : row.id ≡ j.id
  pub idempotency_key : row.idempotency_key ≡ j.idempotency_key
  pub request_fingerprint : row.request_fingerprint ≡ j.request_fingerprint
  pub schedule_id : row.schedule_id ≡ j.schedule_id
  pub scheduled_for : WritesAny row.scheduled_for j.scheduled_for
  pub status : row.status ≡ status_text j.status
  pub payload : loads row.payload ≡ some j.payload
  pub result : Holds loads row.result j.result
  pub priority : row.priority ≡ j.priority
  pub max_retries : row.max_retries ≡ j.max_retries
  pub timeout_seconds : row.timeout_seconds ≡ j.timeout_seconds
  pub attempt_count : row.attempt_count ≡ j.attempt_count
  pub last_error : row.last_error ≡ j.last_error
  pub run_at : Writes row.run_at j.run_at
  pub locked_by : row.locked_by ≡ j.locked_by
  pub locked_at : WritesAny row.locked_at j.locked_at
  pub created_at : Writes row.created_at j.created_at
  pub updated_at : Writes row.updated_at j.updated_at
  pub finished_at : WritesAny row.finished_at j.finished_at

-- The row that a submission inserts stands for the row that the model inserts.
or_else-Writes :
    (o : Option DateTime) (now : DateTime)
    → IsTime now
    → ((t : DateTime) → o ≡ some t → IsTime t)
    → Writes (isoformat (or_else o now)) (or_else (Option.map micros o) (micros now))
or_else-Writes none now ok given = (now, ok, refl, refl)
or_else-Writes (some t) now ok given = (t, given t refl, refl, refl)

pub inserted_row-IsStored :
    (loads : Loads) (dumps : Json → Text) (now : DateTime) (job_id : ℕ) (key fingerprint : Option ℕ)
    (request : JobCreate) (run_at : Option DateTime) (max_retries timeout : ℕ)
    → IsTime now
    → ((t : DateTime) → run_at ≡ some t → IsTime t)
    → request.run_at ≡ Option.map micros run_at
    → loads (dumps request.payload) ≡ some request.payload
    → IsStored loads
        (inserted_row dumps now job_id key fingerprint request.payload request.priority run_at
          max_retries timeout)
        (new_row (micros now) job_id key fingerprint request max_retries timeout)
inserted_row-IsStored loads dumps now job_id key fingerprint request run_at max_retries timeout ok
      given same read =
    record {
      id = refl;
      idempotency_key = refl;
      request_fingerprint = refl;
      schedule_id = refl;
      scheduled_for = tt;
      status = refl;
      payload = read;
      result = tt;
      priority = refl;
      max_retries = refl;
      timeout_seconds = refl;
      attempt_count = refl;
      last_error = refl;
      run_at = rw same (or_else-Writes run_at now ok given);
      locked_by = refl;
      locked_at = tt;
      created_at = (now, ok, refl, refl);
      updated_at = (now, ok, refl, refl);
      finished_at = tt;
    }

-- What is read back.
pub time_of-Writes :
    (text : Text) (n : ℕ)
    → Writes text n
    → (t : DateTime) × (time_of text ≡ some t) × (micros t ≡ n)
time_of-Writes text n (t, ok, e, m) = (t, rw e (parse_db_time-isoformat t ok.0), m)

pub time_or_null-Writes :
    (o : Option Text) (n : Option ℕ)
    → WritesAny o n
    → (t : Option DateTime) × (time_or_null o ≡ some t) × (Option.map micros t ≡ n)
time_or_null-Writes none none w = (none, refl, refl)
time_or_null-Writes none (some n) w = absurd w
time_or_null-Writes (some text) none w = absurd w
time_or_null-Writes (some text) (some n) w =
    let (t, read, m) = time_of-Writes text n w in (some t, rw read refl, ap some m)

pub result_of-Holds :
    (loads : Loads) (o : Option Text) (result : Option Json)
    → Holds loads o result
    → result_of loads o ≡ some result
result_of-Holds loads none none h = refl
result_of-Holds loads none (some r) h = absurd h
result_of-Holds loads (some []) none h = absurd h
result_of-Holds loads (some []) (some r) h = absurd h
result_of-Holds loads (some (c ∷ cs)) none h = absurd h
result_of-Holds loads (some (c ∷ cs)) (some r) h = rw h refl

pub to_status-status_text : (s : JobStatus) → to_status (status_text s) ≡ some s
unfolding to_status
to_status-status_text queued = refl
to_status-status_text running = refl
to_status-status_text succeeded = refl
to_status-status_text failed = refl
to_status-status_text dead_lettered = refl
to_status-status_text cancelled = refl
