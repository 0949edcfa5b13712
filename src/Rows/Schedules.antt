-- ===== src/Rows/Schedules.antt =====
-- The rows of `recurring_schedules`, `_schedule_from_row` of app/repository.py, and `ScheduleView` of
-- app/models.py.
use mathlib.Core.Option
use digitalocean.Base.{◌>>=◌, ℕ, ℤ, ◌≡◌, refl, String, Bool, not, Option, none, some, [], ◌∷◌, ◌==◌}
use digitalocean.Models.{Schedule, ScheduleCreate, Json}
use digitalocean.DbTime.{DateTime, isoformat}
use digitalocean.DbTime.Calendar.{micros}
use digitalocean.Repository.Schedules.{new_schedule}
use digitalocean.Rows.{Text, Loads, time_of, time_or_null}
use digitalocean.Rows.Stored.{IsTime, Writes, WritesAny, time_of-Writes, time_or_null-Writes}

-- A row of `recurring_schedules`; `enabled` is a number.
pub record ScheduleRow : Type 0 where
  pub id : ℕ
  pub name : String
  pub cron_expression : ℕ
  pub timezone : Text
  pub payload : Text
  pub priority : ℤ
  pub max_retries : ℕ
  pub timeout_seconds : ℕ
  pub enabled : ℕ
  pub next_run_at : Text
  pub last_run_at : Option Text
  pub created_at : Text
  pub updated_at : Text

-- "UTC"
abbrev pub utc_text : Text
utc_text = 85 ∷ 84 ∷ 67 ∷ []

-- `ScheduleView`, which has the keys of the dictionary.
pub record ScheduleView : Type 0 where
  pub id : ℕ
  pub name : String
  pub cron_expression : ℕ
  pub timezone : Text
  pub payload : Json
  pub priority : ℤ
  pub max_retries : ℕ
  pub timeout_seconds : ℕ
  pub enabled : Bool
  pub next_run_at : DateTime
  pub last_run_at : Option DateTime
  pub created_at : DateTime
  pub updated_at : DateTime

-- The parameters of the INSERT in `create_schedule`.
abbrev pub inserted_schedule :
    (dumps : Json → Text)
    → (now next_run_at : DateTime) → (schedule_id : ℕ) → ScheduleCreate
    → (max_retries timeout : ℕ) → ScheduleRow
inserted_schedule dumps now next_run_at schedule_id request max_retries timeout = record {
  id = schedule_id;
  name = request.name;
  cron_expression = request.cron_expression;
  timezone = utc_text;
  payload = dumps request.payload;
  priority = request.priority;
  max_retries = max_retries;
  timeout_seconds = timeout;
  enabled = 1;
  next_run_at = isoformat next_run_at;
  last_run_at = none;
  created_at = isoformat now;
  updated_at = isoformat now;
}

-- `_schedule_from_row`
unfoldable pub schedule_from_row : Loads → ScheduleRow → Option ScheduleView
schedule_from_row loads row = do
  payload ← loads row.payload
  next_run_at ← time_of row.next_run_at
  last_run_at ← time_or_null row.last_run_at
  created_at ← time_of row.created_at
  updated_at ← time_of row.updated_at
  some (record {
    id = row.id;
    name = row.name;
    cron_expression = row.cron_expression;
    timezone = row.timezone;
    payload = payload;
    priority = row.priority;
    max_retries = row.max_retries;
    timeout_seconds = row.timeout_seconds;
    enabled = not (row.enabled == 0);
    next_run_at = next_run_at;
    last_run_at = last_run_at;
    created_at = created_at;
    updated_at = updated_at;
  })

-- Which stored row stands for which schedule of the model.
pub record IsKept (loads : Loads) (row : ScheduleRow) (s : Schedule) : Type 0 where
  pub id : row.id ≡ s.id
  pub name : row.name ≡ s.name
  pub cron_expression : row.cron_expression ≡ s.cron_expression
  pub timezone : row.timezone ≡ utc_text
  pub payload : loads row.payload ≡ some s.payload
  pub priority : row.priority ≡ s.priority
  pub max_retries : row.max_retries ≡ s.max_retries
  pub timeout_seconds : row.timeout_seconds ≡ s.timeout_seconds
  pub enabled : not (row.enabled == 0) ≡ s.enabled
  pub next_run_at : Writes row.next_run_at s.next_run_at
  pub last_run_at : WritesAny row.last_run_at s.last_run_at
  pub created_at : Writes row.created_at s.created_at
  pub updated_at : Writes row.updated_at s.updated_at

-- The fields of a view, with its times as numbers.
pub record ShowsSchedule (v : ScheduleView) (s : Schedule) : Type 0 where
  pub id : v.id ≡ s.id
  pub name : v.name ≡ s.name
  pub cron_expression : v.cron_expression ≡ s.cron_expression
  pub timezone : v.timezone ≡ utc_text
  pub payload : v.payload ≡ s.payload
  pub priority : v.priority ≡ s.priority
  pub max_retries : v.max_retries ≡ s.max_retries
  pub timeout_seconds : v.timeout_seconds ≡ s.timeout_seconds
  pub enabled : v.enabled ≡ s.enabled
  pub next_run_at : micros v.next_run_at ≡ s.next_run_at
  pub last_run_at : Option.map micros v.last_run_at ≡ s.last_run_at
  pub created_at : micros v.created_at ≡ s.created_at
  pub updated_at : micros v.updated_at ≡ s.updated_at

pub inserted_schedule-IsKept :
    (loads : Loads) (dumps : Json → Text) (now next_run_at : DateTime) (schedule_id : ℕ)
    (request : ScheduleCreate) (max_retries timeout : ℕ)
    → IsTime now
    → IsTime next_run_at
    → loads (dumps request.payload) ≡ some request.payload
    → IsKept loads
        (inserted_schedule dumps now next_run_at schedule_id request max_retries timeout)
        (new_schedule (micros now) schedule_id (micros next_run_at) request max_retries timeout)
inserted_schedule-IsKept loads dumps now next schedule_id request max_retries timeout ok ok' read =
    record {
      id = refl;
      name = refl;
      cron_expression = refl;
      timezone = refl;
      payload = read;
      priority = refl;
      max_retries = refl;
      timeout_seconds = refl;
      enabled = refl;
      next_run_at = (next, ok', refl, refl);
      last_run_at = tt;
      created_at = (now, ok, refl, refl);
      updated_at = (now, ok, refl, refl);
    }

pub schedule_from_row-Shows :
    (loads : Loads) (row : ScheduleRow) (s : Schedule)
    → IsKept loads row s
    → (v : ScheduleView) × (schedule_from_row loads row ≡ some v) × ShowsSchedule v s
unfolding schedule_from_row
schedule_from_row-Shows loads row s k =
    let (next, e1, m1) = time_of-Writes row.next_run_at s.next_run_at k.next_run_at in
    let (last, e2, m2) = time_or_null-Writes row.last_run_at s.last_run_at k.last_run_at in
    let (created, e3, m3) = time_of-Writes row.created_at s.created_at k.created_at in
    let (updated, e4, m4) = time_of-Writes row.updated_at s.updated_at k.updated_at in
    let v : ScheduleView = record {
      id = row.id;
      name = row.name;
      cron_expression = row.cron_expression;
      timezone = row.timezone;
      payload = s.payload;
      priority = row.priority;
      max_retries = row.max_retries;
      timeout_seconds = row.timeout_seconds;
      enabled = not (row.enabled == 0);
      next_run_at = next;
      last_run_at = last;
      created_at = created;
      updated_at = updated;
    } in
    (
      v,
      rw k.payload (rw e1 (rw e2 (rw e3 (rw e4 refl)))),
      record {
        id = k.id;
        name = k.name;
        cron_expression = k.cron_expression;
        timezone = k.timezone;
        payload = refl;
        priority = k.priority;
        max_retries = k.max_retries;
        timeout_seconds = k.timeout_seconds;
        enabled = k.enabled;
        next_run_at = m1;
        last_run_at = m2;
        created_at = m3;
        updated_at = m4;
      },
    )
