-- ===== src/Tests/Stored.antt =====
-- A submission as SQL stores it, claimed half a second later.
use digitalocean.Base.{◌>>=◌, ℕ, ◌≡◌, refl, none, some, pos, [], ◌∷◌, arith}
use digitalocean.Models.{Job, JobCreate, Json, end, obj}
use digitalocean.DbTime.{DateTime, isoformat}
use digitalocean.DbTime.Calendar.{is_leap, days_in_month, micros}
use digitalocean.Repository.Claim.{claim_next_job}
use digitalocean.Repository.Create.{new_row}
use digitalocean.Repository.Store.{Db, insert_job}
use digitalocean.Rows.{Text, Loads, JobRow, JobView, inserted_row, job_from_row, job_view}
use digitalocean.Rows.Stored.{IsTime, IsStored, inserted_row-IsStored}
use digitalocean.Rows.Views.{Shows, job_view-Shows}
use digitalocean.Rows.Queries.{claim_next_row, scheduled_rows}
use digitalocean.Rows.Writes.{insert_row, cancel_row, drain_rows}
use digitalocean.Rows.Writes.Agree.{Inserted}
use digitalocean.Rows.Refines.{text_rows_refine}
use digitalocean.Sql.Related.{Related}
use digitalocean.Repository.Cancel.{cancel_job, drain_queue}
use digitalocean.Repository.Depth.{list_scheduled_jobs}
use digitalocean.Rows.Claims.{Claimed}

abbrev payload : Json
payload = obj end

-- `{}`
abbrev dumps : Json → Text
dumps value = 123 ∷ 125 ∷ []

abbrev loads : Loads
loads text = some payload

abbrev now : DateTime
now = record {
  year = 2024;
  month = 2;
  day = 29;
  hour = 12;
  minute = 0;
  second = 0;
  microsecond = 0;
}

abbrev later : DateTime
later = record now { microsecond = 500000 }

now_fits : IsTime now
unfolding days_in_month is_leap
now_fits = (
  (omega arith, omega arith, omega arith, omega arith, omega arith, omega arith, omega arith),
  (omega arith, omega arith, omega arith, omega arith, omega arith),
)

later_fits : IsTime later
unfolding days_in_month is_leap
later_fits = (
  (omega arith, omega arith, omega arith, omega arith, omega arith, omega arith, omega arith),
  (omega arith, omega arith, omega arith, omega arith, omega arith),
)

abbrev request : JobCreate
request = record {
  payload = payload;
  priority = pos 0;
  max_retries = none;
  timeout_seconds = none;
  run_at = none;
}

abbrev stored : JobRow
stored = inserted_row dumps now 1 none none payload (pos 0) none 3 300

abbrev job : Job
job = new_row (micros now) 1 none none request 3 300

stored-IsStored : IsStored loads stored job
stored-IsStored =
    inserted_row-IsStored loads dumps now 1 none none request none 3 300 now_fits (λ t e. absurd cc)
      refl refl

abbrev one_job : Db
one_job = record {
  jobs = job ∷ [];
  job_attempts = [];
  dead_letters = [];
  recurring_schedules = [];
  runtime_config = none;
  worker_instances = [];
}

job_view-Shows_example :
    (v : JobView) × ((job_from_row loads stored >>= job_view) ≡ some v) × Shows v job
job_view-Shows_example = job_view-Shows loads stored job stored-IsStored refl refl

-- A second submission, half a second later.
abbrev second : JobRow
second = inserted_row dumps later 2 none none payload (pos 0) none 3 300

abbrev second_job : Job
second_job = new_row (micros later) 2 none none request 3 300

second-IsStored : IsStored loads second second_job
second-IsStored =
    inserted_row-IsStored loads dumps later 2 none none request none 3 300 later_fits
      (λ t e. absurd cc) refl refl

text_rows_refine_example :
    ((worker_id : ℕ)
      → Claimed loads
          (claim_next_row (isoformat later) worker_id (stored ∷ []))
          (claim_next_job (micros later) worker_id one_job))
    × Inserted loads (insert_row second (stored ∷ [])) (insert_job second_job one_job)
    × ((job_id : ℕ)
        → Claimed loads
            (cancel_row (isoformat later) job_id (stored ∷ []))
            (cancel_job (micros later) job_id one_job))
    × Related
        (IsStored loads)
        (drain_rows (isoformat later) (stored ∷ [])).0
        (drain_queue (micros later) one_job).0.jobs
    × ((drain_rows (isoformat later) (stored ∷ [])).1 ≡ (drain_queue (micros later) one_job).1)
    × ((max_rows : ℕ)
        → Related
            (IsStored loads)
            (scheduled_rows (isoformat later) max_rows (stored ∷ []))
            (list_scheduled_jobs (micros later) max_rows one_job))
text_rows_refine_example =
    text_rows_refine loads later (stored ∷ []) one_job second second_job later_fits
      (stored-IsStored, tt) second-IsStored
