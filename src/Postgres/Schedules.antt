-- ===== src/Postgres/Schedules.antt =====
-- `set_schedule_enabled` and `materialize_due_schedules` of app/postgres_repository.py.
pub mod Agree
pub mod Once
pub mod Adds
pub mod Moves
pub mod Rounds
pub mod Total
pub mod Same
use digitalocean.Base.{
  ℕ, ◌+◌, Bool, not, ◌&&◌, ◌||◌, Option, none, some, List, [], ◌∷◌, ◌++◌, ◌==◌, is_some, is_same,
  ltb, if◌then◌else◌,
}
use digitalocean.Models.{Job, Schedule}
use digitalocean.Sql.{select, find, update, order_by, limit}
use digitalocean.Repository.Store.{
  Db, Exception, Result, ok, raise, integrity_error, invalid_cron_expression, insert_job,
}
use digitalocean.Repository.Schedules.{Cron, get_schedule, next_run, enable}
use digitalocean.Repository.Schedules.Materialize.{is_due, occurrence, advance}

-- The update and the lookup after it, whether or not the update met a row.
unfoldable pub write_enabled : (now schedule_id next_run_at : ℕ) → Bool → Db → Db × Option Schedule
write_enabled now schedule_id next_run_at enabled db =
    let db' = record db {
      recurring_schedules =
          update (λ s. s.id == schedule_id) (enable now next_run_at enabled) db.recurring_schedules;
    } in
    (db', get_schedule schedule_id db')

unfoldable pub set_schedule_enabled :
    Cron → (between : Db → Db) → (now schedule_id : ℕ) → Bool → Db → Db × Result (Option Schedule)
set_schedule_enabled cron between now schedule_id enabled db = elim (get_schedule schedule_id db) [
  | none ↦ (db, ok none)
  | some current ↦ elim (next_run cron now enabled current) [
    | none ↦ (db, raise invalid_cron_expression)
    | some next_run_at ↦
        let written = write_enabled now schedule_id next_run_at enabled (between db) in
        (written.0, ok written.1)
  ]
]

-- The index on (schedule_id, scheduled_for).
abbrev pub same_occurrence : Job → Job → Bool
same_occurrence row j =
    is_same j.schedule_id row.schedule_id && is_same j.scheduled_for row.scheduled_for

-- `INSERT ... ON CONFLICT (schedule_id, scheduled_for) DO NOTHING`, and its `rowcount`. A clash
-- with another index is a UniqueViolation.
unfoldable pub insert_occurrence : Job → Db → Result (Db × ℕ)
insert_occurrence row db =
    if is_some (find (same_occurrence row) db.jobs)
    then ok (db, 0)
    else elim (insert_job row db) [ none ↦ raise integrity_error | some db' ↦ ok (db', 1) ]

-- The second half of the loop's body: the schedule's next run.
abbrev pub advance_row : Cron → ℕ → Schedule → Result (Db × ℕ) → Result (Db × ℕ)
advance_row cron now s (raise e) = raise e
advance_row cron now s (ok (db, one)) = elim (cron s.cron_expression s.next_run_at) [
  | none ↦ raise invalid_cron_expression
  | some next_run_at ↦ ok (
    record db {
      recurring_schedules =
          update (λ t. t.id == s.id) (advance now s.next_run_at next_run_at) db.recurring_schedules;
    },
    one,
  )
]

unfoldable pub materialize_row : Cron → (now job_id : ℕ) → Schedule → Db → Result (Db × ℕ)
materialize_row cron now job_id s db =
    advance_row cron now s (insert_occurrence (occurrence now job_id s) db)

unfoldable pub materialize_rows : Cron → ℕ → (ℕ → ℕ) → List Schedule → ℕ → Db → ℕ → Result (Db × ℕ)
materialize_rows cron now uuid [] n db materialized = ok (db, materialized)
materialize_rows cron now uuid (s ∷ rows) n db materialized =
    elim (materialize_row cron now (uuid n) s db) [
      | raise e ↦ raise e
      | ok (db', one) ↦ materialize_rows cron now uuid rows (n + 1) db' (materialized + one)
    ]

-- `... LIMIT n FOR UPDATE SKIP LOCKED`: the limit counts the rows that are not locked.
abbrev pub due_schedules : (locked : ℕ → Bool) → (now max_rows : ℕ) → Db → List Schedule
due_schedules locked now max_rows db = limit max_rows (
    order_by (λ a b. ltb a.next_run_at b.next_run_at)
      (select (λ s. is_due now s && not (locked s.id)) db.recurring_schedules))

-- The end of the transaction.
abbrev pub committed : Db → Result (Db × ℕ) → Db × Result ℕ
committed db (raise e) = (db, raise e)
committed db (ok (db', materialized)) = (db', ok materialized)

unfoldable pub materialize_due_schedules :
    Cron → (locked : ℕ → Bool) → ℕ → (ℕ → ℕ) → ℕ → Db → Db × Result ℕ
materialize_due_schedules cron locked now uuid max_rows db =
    committed db (materialize_rows cron now uuid (due_schedules locked now max_rows db) 0 db 0)
