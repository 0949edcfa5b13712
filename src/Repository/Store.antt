-- ===== src/Repository/Store.antt =====
-- The tables of app/repository.py with their keys and unique indexes, and the lookups by key.
use digitalocean.Base.{
  ℕ, Bool, ◌&&◌, ◌||◌, Option, none, some, List, [], ◌∷◌, ◌++◌, ◌==◌, is_value, is_same, is_some,
  if◌then◌else◌,
}
use digitalocean.Models.{Job, Attempt, DeadLetter, Schedule, RuntimeConfig, Instance}
use digitalocean.Sql.{find, delete}

pub record Db : Type 0 where
  pub jobs : List Job
  pub job_attempts : List Attempt
  pub dead_letters : List DeadLetter
  pub recurring_schedules : List Schedule
  pub runtime_config : Option RuntimeConfig
  pub worker_instances : List Instance

-- What a method of the repository raises.
pub data Exception : Type 0 where
  integrity_error idempotency_conflict invalid_cron_expression not_initialized : Exception

pub data Result (A : Type 0) : Type 0 where
  ok : A → Result A
  raise : Exception → Result A

-- The end of a transaction: a statement that failed leaves the tables as they were.
abbrev pub commit : {A : Type 0} → Db → Option Db → (Db → A) → Db × Result A
commit db none answer = (db, raise integrity_error)
commit db (some db') answer = (db', ok (answer db'))

unfoldable pub get_job : ℕ → Db → Option Job
get_job job_id db = find (λ j. j.id == job_id) db.jobs

unfoldable pub get_job_by_idempotency_key : ℕ → Db → Option Job
get_job_by_idempotency_key key db = find (λ j. is_value j.idempotency_key key) db.jobs

-- Two rows that the primary key, the index on idempotency_key or the index on
-- (schedule_id, scheduled_for) keeps apart. An index holds no row with a NULL column.
abbrev pub clashes : Job → Job → Bool
clashes row j =
    j.id == row.id
    || is_same j.idempotency_key row.idempotency_key
    || is_same j.schedule_id row.schedule_id && is_same j.scheduled_for row.scheduled_for

-- `INSERT INTO jobs`; `none` is an IntegrityError.
unfoldable pub insert_job : Job → Db → Option Db
insert_job row db =
    if is_some (find (clashes row) db.jobs)
    then none
    else some (record db { jobs = db.jobs ++ (row ∷ []) })

abbrev pub is_attempt : ℕ → ℕ → Attempt → Bool
is_attempt job_id attempt_no a = a.job_id == job_id && a.attempt_no == attempt_no

-- `INSERT INTO job_attempts`, with the foreign key to `jobs` and the unique index on
-- (job_id, attempt_no).
unfoldable pub insert_attempt : Attempt → Db → Option Db
insert_attempt row db =
    if is_some (get_job row.job_id db)
    then (if is_some (find (is_attempt row.job_id row.attempt_no) db.job_attempts)
        then none
        else some (record db { job_attempts = db.job_attempts ++ (row ∷ []) }))
    else none

-- `INSERT OR REPLACE INTO dead_letters`
unfoldable pub replace_dead_letter : DeadLetter → Db → Db
replace_dead_letter row db = record db {
  dead_letters = delete (λ d. d.job_id == row.job_id) db.dead_letters ++ (row ∷ []);
}
