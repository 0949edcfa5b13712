-- ===== src/Tests/Recurring.antt =====
-- A recurring schedule, of which one occurrence is due.
use digitalocean.Base.{◌≡◌, ◌+◌, refl, true, false, is_some, arith, none, some, pos, [], ◌∷◌}
use digitalocean.Models.{Schedule, null}
use digitalocean.Repository.Store.{Db, get_job, insert_job}
use digitalocean.Repository.Schedules.{Cron}
use digitalocean.Repository.Schedules.Materialize.{
  occurrence, advance, materialize_row, materialize_due_schedules,
}
use digitalocean.Repository.Schedules.Materialize.Once.{occurs, Occurs, materialize_row-once}
use digitalocean.Sql.{find}
use digitalocean.Sql.Sort.{All}
use digitalocean.Postgres.Schedules as Postgres
use digitalocean.Postgres.Schedules.Total.{IsDistinct, Materializes, materialize_due_schedules_lem}
use digitalocean.Tests.Samples.{empty_db}

abbrev pub every_minute : Cron
every_minute expression after = some (after + 60)

abbrev pub schedule : Schedule
schedule = record {
  id = 9;
  name = "report";
  cron_expression = 1;
  payload = null;
  priority = pos 0;
  max_retries = 3;
  timeout_seconds = 5;
  enabled = true;
  next_run_at = 60;
  last_run_at = none;
  created_at = 0;
  updated_at = 0;
}

abbrev pub due_db : Db
due_db = record empty_db { recurring_schedules = schedule ∷ [] }

abbrev pub materialized_db : Db
materialized_db = record due_db {
  jobs = occurrence 61 1 schedule ∷ [];
  recurring_schedules = advance 61 60 120 schedule ∷ [];
}

materialized : materialize_row every_minute 61 1 schedule due_db ≡ some (materialized_db, 1)
unfolding materialize_row insert_job
materialized = refl

-- A second scheduler read the schedule before it moved on.
materialize_row-once_example :
    Occurs schedule 61 1 due_db (materialized_db, 1)
    × (is_some (find (occurs schedule) materialized_db.jobs) ≡ true)
    × ((db2 : Db) × (materialize_row every_minute 62 2 schedule materialized_db ≡ some (db2, 0))
        × (db2.jobs ≡ materialized_db.jobs))
unfolding get_job
materialize_row-once_example =
    materialize_row-once every_minute 61 62 1 2 1 schedule due_db materialized_db refl materialized

numbers-IsDistinct : IsDistinct (λ n. n)
numbers-IsDistinct m n less = ground arith

due :
    All
      (λ (s : Schedule). is_some (every_minute s.cron_expression s.next_run_at) ≡ true)
      (Postgres.due_schedules (λ k. false) 61 10 due_db)
due = (refl, tt)

materialize_due_schedules_lem_example :
    Materializes every_minute 61
      (Postgres.due_schedules (λ k. false) 61 10 due_db)
      due_db
      (Postgres.materialize_due_schedules every_minute (λ k. false) 61 (λ n. n) 10 due_db)
materialize_due_schedules_lem_example =
    materialize_due_schedules_lem every_minute (λ k. false) 61 (λ n. n) 10 due_db (refl, tt)
      numbers-IsDistinct (λ n. refl) due
