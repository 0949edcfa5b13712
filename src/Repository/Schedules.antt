-- ===== src/Repository/Schedules.antt =====
-- The recurring schedules of app/repository.py. `next_cron_run` of app/scheduling.py calls
-- croniter, which is an argument: `none` is an InvalidCronExpressionError.
pub mod Materialize
use digitalocean.Base.{
  ℕ, ◌+◌, Bool, true, false, ◌&&◌, Option, none, some, List, [], ◌∷◌, ◌++◌, ◌==◌, ltb, leb, is_some,
  if◌then◌else◌,
}
use digitalocean.Models.{Job, Schedule, ScheduleCreate, queued}
use digitalocean.Sql.{select, find, update, count, delete, order_by, limit}
use digitalocean.Repository.Store.{
  Db, Result, ok, raise, integrity_error, invalid_cron_expression, insert_job,
}

-- `next_cron_run`: the expression and the time after which the next run is wanted.
abbrev pub Cron : Type 0
Cron = ℕ → ℕ → Option ℕ

unfoldable pub get_schedule : ℕ → Db → Option Schedule
get_schedule schedule_id db = find (λ s. s.id == schedule_id) db.recurring_schedules

unfoldable pub insert_schedule : Schedule → Db → Option Db
insert_schedule row db =
    if is_some (get_schedule row.id db)
    then none
    else some (record db { recurring_schedules = db.recurring_schedules ++ (row ∷ []) })

abbrev pub new_schedule : (now schedule_id next_run_at : ℕ) → ScheduleCreate → ℕ → ℕ → Schedule
new_schedule now schedule_id next_run_at request max_retries timeout = record {
  id = schedule_id;
  name = request.name;
  cron_expression = request.cron_expression;
  payload = request.payload;
  priority = request.priority;
  max_retries = max_retries;
  timeout_seconds = timeout;
  enabled = true;
  next_run_at = next_run_at;
  last_run_at = none;
  created_at = now;
  updated_at = now;
}

unfoldable pub create_schedule :
    Cron
    → (now schedule_id : ℕ) → ScheduleCreate
    → (max_retries timeout : ℕ) → Db
    → Db × Result (Option Schedule)
create_schedule cron now schedule_id request max_retries timeout db =
    elim (cron request.cron_expression now) [
      | none ↦ (db, raise invalid_cron_expression)
      | some next_run_at ↦
          elim (insert_schedule
            (new_schedule now schedule_id next_run_at request max_retries timeout) db) [
              | none ↦ (db, raise integrity_error)
              | some db' ↦ (db', ok (get_schedule schedule_id db'))
            ]
    ]

unfoldable pub list_schedules : Db → List Schedule
list_schedules db = order_by (λ a b. ltb b.created_at a.created_at) db.recurring_schedules

-- The next run of a schedule that is switched on or off.
abbrev pub next_run : Cron → ℕ → Bool → Schedule → Option ℕ
next_run cron now enabled s = if enabled then cron s.cron_expression now else some s.next_run_at

abbrev pub enable : (now next_run_at : ℕ) → Bool → Schedule → Schedule
enable now next_run_at enabled s = record s {
  enabled = enabled;
  next_run_at = next_run_at;
  updated_at = now;
}

-- The update and the lookup after it, on the tables that they find.
unfoldable pub write_enabled : (now schedule_id next_run_at : ℕ) → Bool → Db → Db × Option Schedule
write_enabled now schedule_id next_run_at enabled db =
    let is_it = λ (s : Schedule). s.id == schedule_id in
    let db' = record db {
      recurring_schedules = update is_it (enable now next_run_at enabled) db.recurring_schedules;
    } in
    (db', if count is_it db.recurring_schedules == 0 then none else get_schedule schedule_id db')

-- `between` is what other connections commit between the lookup and the update.
unfoldable pub set_schedule_enabled :
    Cron → (between : Db → Db) → (now schedule_id : ℕ) → Bool → Db → Db × Result (Option Schedule)
set_schedule_enabled cron between now schedule_id enabled db = elim (get_schedule schedule_id db) [
  | none ↦ (db, ok none)
  | some current ↦ elim (next_run cron now enabled current) [
    | none ↦ (db, raise invalid_cron_expression)
    | some next_run_at ↦
        let written = write_enabled now schedule_id next_run_at enabled (between db) in
        (written.0, ok written.1)
  ]
]

unfoldable pub delete_schedule : ℕ → Db → Db × Bool
delete_schedule schedule_id db =
    let is_it = λ (s : Schedule). s.id == schedule_id in
    (
      record db { recurring_schedules = delete is_it db.recurring_schedules },
      ltb 0 (count is_it db.recurring_schedules),
    )
