-- ===== src/Repository/Schedules/Materialize.antt =====
-- `materialize_due_schedules` of app/repository.py: a job for each due occurrence.
pub mod Once
use digitalocean.Base.{
  ℕ, ◌+◌, Bool, ◌&&◌, Option, none, some, List, [], ◌∷◌, ◌==◌, ltb, leb, or_else, is_some,
  if◌then◌else◌,
}
use digitalocean.Models.{Job, Schedule, queued}
use digitalocean.Sql.{select, update, order_by, limit}
use digitalocean.Repository.Store.{Db, Result, ok, raise, invalid_cron_expression, insert_job}
use digitalocean.Repository.Schedules.{Cron}

-- `WHERE enabled = 1 AND next_run_at <= now`
abbrev pub is_due : ℕ → Schedule → Bool
is_due now s = s.enabled && leb s.next_run_at now

-- The columns of the job of one occurrence; those that the insert leaves out are NULL.
abbrev pub occurrence : (now job_id : ℕ) → Schedule → Job
occurrence now job_id s = record {
  id = job_id;
  idempotency_key = none;
  request_fingerprint = none;
  schedule_id = some s.id;
  scheduled_for = some s.next_run_at;
  status = queued;
  payload = s.payload;
  result = none;
  priority = s.priority;
  max_retries = s.max_retries;
  timeout_seconds = s.timeout_seconds;
  attempt_count = 0;
  last_error = none;
  run_at = s.next_run_at;
  locked_by = none;
  locked_at = none;
  created_at = now;
  updated_at = now;
  finished_at = none;
}

abbrev pub advance : (now last_run_at next_run_at : ℕ) → Schedule → Schedule
advance now last_run_at next_run_at s = record s {
  last_run_at = some last_run_at;
  next_run_at = next_run_at;
  updated_at = now;
}

-- The body of the loop: `INSERT OR IGNORE`, whether it inserted, and the schedule's next run.
-- `none` is an exception of `next_cron_run`.
unfoldable pub materialize_row : Cron → (now job_id : ℕ) → Schedule → Db → Option (Db × ℕ)
materialize_row cron now job_id s db =
    let inserted = insert_job (occurrence now job_id s) db in
    let db' = or_else inserted db in
    elim (cron s.cron_expression s.next_run_at) [
      | none ↦ none
      | some next_run_at ↦ some (
        record db' {
          recurring_schedules =
              update (λ t. t.id == s.id) (advance now s.next_run_at next_run_at)
                db'.recurring_schedules;
        },
        if is_some inserted then 1 else 0,
      )
    ]

-- The loop; `uuid n` is the identifier drawn in the n-th round.
unfoldable pub materialize_rows : Cron → ℕ → (ℕ → ℕ) → List Schedule → ℕ → Db → ℕ → Option (Db × ℕ)
materialize_rows cron now uuid [] n db materialized = some (db, materialized)
materialize_rows cron now uuid (s ∷ rows) n db materialized =
    elim (materialize_row cron now (uuid n) s db) [
      | none ↦ none
      | some (db', one) ↦ materialize_rows cron now uuid rows (n + 1) db' (materialized + one)
    ]

abbrev pub due_schedules : (now max_rows : ℕ) → Db → List Schedule
due_schedules now max_rows db =
    limit max_rows (
      order_by (λ a b. ltb a.next_run_at b.next_run_at)
        (select (is_due now) db.recurring_schedules))

abbrev pub materialized_or_raise : Db → Option (Db × ℕ) → Db × Result ℕ
materialized_or_raise db none = (db, raise invalid_cron_expression)
materialized_or_raise db (some (db', materialized)) = (db', ok materialized)

unfoldable pub materialize_due_schedules : Cron → ℕ → (ℕ → ℕ) → ℕ → Db → Db × Result ℕ
materialize_due_schedules cron now uuid max_rows db =
    materialized_or_raise db (materialize_rows cron now uuid (due_schedules now max_rows db) 0 db 0)
