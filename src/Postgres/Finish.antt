-- ===== src/Postgres/Finish.antt =====
-- `mark_succeeded` and `mark_failed_attempt` of app/postgres_repository.py: the row comes from
-- `RETURNING *`, and a dead letter that is there already is updated in its place.
pub mod Agree
use mathlib.Core.Option
use digitalocean.Base.{
  ℕ, String, Bool, Option, none, some, List, [], ◌∷◌, ◌++◌, ◌==◌, is_some, if◌then◌else◌,
}
use digitalocean.Models.{Job, DeadLetter, Json}
use digitalocean.Sql.{find, update, first, returning}
use digitalocean.Repository.Store.{Db, Result, ok, commit, get_job, insert_attempt}
use digitalocean.Repository.Finish.{
  is_held, succeed, succeeded_attempt, will_retry, fail_attempt, failed_attempt, retry_at,
}

-- The columns that a conflict sets.
abbrev pub rewrite : DeadLetter → DeadLetter → DeadLetter
rewrite row d = record d {
  payload = row.payload;
  last_error = row.last_error;
  attempt_count = row.attempt_count;
  dead_lettered_at = row.dead_lettered_at;
}

-- `INSERT INTO dead_letters ... ON CONFLICT (job_id) DO UPDATE`
unfoldable pub upsert_dead_letter : DeadLetter → Db → Db
upsert_dead_letter row db =
    let is_it = λ (d : DeadLetter). d.job_id == row.job_id in
    record db {
      dead_letters =
          if is_some (find is_it db.dead_letters)
          then update is_it (rewrite row) db.dead_letters
          else db.dead_letters ++ (row ∷ []);
    }

unfoldable pub bury : ℕ → ℕ → Json → String → ℕ → ℕ → Db → Db
bury now job_id payload error attempt_no max_retries db =
    let row : DeadLetter = record {
      job_id = job_id;
      payload = payload;
      last_error = some error;
      attempt_count = attempt_no;
      dead_lettered_at = now;
    } in
    if will_retry attempt_no max_retries then db else upsert_dead_letter row db

-- `row` is what the update returned.
unfoldable pub succeed_row :
    (now job_id worker_id attempt_no started_at : ℕ)
    → Json
    → Option Job
    → Db
    → Db × Result (Option Job)
succeed_row now job_id worker_id attempt_no started_at result none db = (db, ok (get_job job_id db))
succeed_row now job_id worker_id attempt_no started_at result (some row) db =
    commit db
      (insert_attempt (succeeded_attempt now job_id worker_id attempt_no started_at) (record db {
        jobs = update (is_held job_id worker_id) (succeed now attempt_no result) db.jobs;
      }))
      (λ db'. some row)

unfoldable pub mark_succeeded :
    (now job_id worker_id attempt_no started_at : ℕ) → Json → Db → Db × Result (Option Job)
mark_succeeded now job_id worker_id attempt_no started_at result db =
    succeed_row now job_id worker_id attempt_no started_at result
      (first (returning (is_held job_id worker_id) (succeed now attempt_no result) db.jobs)) db

unfoldable pub fail_row :
    (now : ℕ)
    → Job
    → (worker_id attempt_no started_at : ℕ) → String
    → (is_timeout : Bool) → (change : Job → Job) → Option Job
    → Db
    → Db × Result (Option Job)
fail_row now job worker_id attempt_no started_at error is_timeout change none db =
    (db, ok (get_job job.id db))
fail_row now job worker_id attempt_no started_at error is_timeout change (some row) db =
    commit db
      (Option.map (bury now job.id job.payload error attempt_no job.max_retries) (
        insert_attempt (failed_attempt now job.id worker_id attempt_no started_at error is_timeout)
          (record db { jobs = update (is_held job.id worker_id) change db.jobs })))
      (λ db'. some row)

unfoldable pub mark_failed_attempt :
    (now : ℕ)
    → Job
    → (worker_id attempt_no started_at : ℕ) → String
    → (is_timeout : Bool) → (backoff : ℕ) → Db
    → Db × Result (Option Job)
mark_failed_attempt now job worker_id attempt_no started_at error is_timeout backoff db =
    let next_run_at = retry_at now backoff attempt_no job.max_retries in
    let change = fail_attempt now attempt_no job.max_retries error next_run_at in
    fail_row now job worker_id attempt_no started_at error is_timeout change
      (first (returning (is_held job.id worker_id) change db.jobs)) db
