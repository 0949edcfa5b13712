-- ===== src/Repository/Finish.antt =====
-- `mark_succeeded` and `mark_failed_attempt` of app/repository.py. The current time is an
-- argument; the exception is an IntegrityError from the insert into `job_attempts`.
use mathlib.Core.Option
use digitalocean.Base.{
  ℕ, ◌+◌, String, Bool, ◌&&◌, Option, none, some, ◌==◌, leb, is_value, if◌then◌else◌,
}
use digitalocean.Models.{
  Job, Attempt, DeadLetter, Json, queued, running, succeeded, dead_lettered, attempt_succeeded,
  attempt_failed, timed_out, is_status,
}
use digitalocean.Sql.{update, count}
use digitalocean.Repository.Store.{
  Db, Result, ok, commit, get_job, insert_attempt, replace_dead_letter,
}

-- `WHERE id = ? AND status = 'running' AND locked_by = ?`
abbrev pub is_held : ℕ → ℕ → Job → Bool
is_held job_id worker_id j =
    j.id == job_id && (is_status j.status running && is_value j.locked_by worker_id)

abbrev pub succeed : ℕ → ℕ → Json → Job → Job
succeed now attempt_no result j = record j {
  status = succeeded;
  result = some result;
  attempt_count = attempt_no;
  last_error = none;
  locked_by = none;
  locked_at = none;
  updated_at = now;
  finished_at = some now;
}

abbrev pub succeeded_attempt : (now job_id worker_id attempt_no started_at : ℕ) → Attempt
succeeded_attempt now job_id worker_id attempt_no started_at = record {
  job_id = job_id;
  attempt_no = attempt_no;
  worker_id = worker_id;
  status = attempt_succeeded;
  started_at = started_at;
  finished_at = now;
  error = none;
}

unfoldable pub mark_succeeded :
    (now job_id worker_id attempt_no started_at : ℕ) → Json → Db → Db × Result (Option Job)
mark_succeeded now job_id worker_id attempt_no started_at result db =
    let held = is_held job_id worker_id in
    if count held db.jobs == 0
    then (db, ok (get_job job_id db))
    else commit db
        (insert_attempt (succeeded_attempt now job_id worker_id attempt_no started_at)
          (record db { jobs = update held (succeed now attempt_no result) db.jobs }))
        (get_job job_id)

-- `will_retry`, and the columns that it decides.
abbrev pub will_retry : ℕ → ℕ → Bool
will_retry attempt_no max_retries = leb attempt_no max_retries

abbrev pub fail_attempt : ℕ → ℕ → ℕ → String → ℕ → Job → Job
fail_attempt now attempt_no max_retries error next_run_at j = record j {
  status = if will_retry attempt_no max_retries then queued else dead_lettered;
  attempt_count = attempt_no;
  last_error = some error;
  run_at = next_run_at;
  locked_by = none;
  locked_at = none;
  updated_at = now;
  finished_at = if will_retry attempt_no max_retries then none else some now;
}

abbrev pub failed_attempt :
    (now job_id worker_id attempt_no started_at : ℕ) → String → (is_timeout : Bool) → Attempt
failed_attempt now job_id worker_id attempt_no started_at error is_timeout = record {
  job_id = job_id;
  attempt_no = attempt_no;
  worker_id = worker_id;
  status = if is_timeout then timed_out else attempt_failed;
  started_at = started_at;
  finished_at = now;
  error = some error;
}

-- `next_run_at`: the backoff counts from now, and a job without a retry is not delayed.
abbrev pub retry_at : (now backoff attempt_no max_retries : ℕ) → ℕ
retry_at now backoff attempt_no max_retries =
    if will_retry attempt_no max_retries then now + backoff else now

-- The insert into `dead_letters` where the attempts are used up.
unfoldable pub bury : ℕ → ℕ → Json → String → ℕ → ℕ → Db → Db
bury now job_id payload error attempt_no max_retries db =
    let row : DeadLetter = record {
      job_id = job_id;
      payload = payload;
      last_error = some error;
      attempt_count = attempt_no;
      dead_lettered_at = now;
    } in
    if will_retry attempt_no max_retries then db else replace_dead_letter row db

unfoldable pub mark_failed_attempt :
    (now : ℕ)
    → Job
    → (worker_id attempt_no started_at : ℕ) → String
    → (is_timeout : Bool) → (backoff : ℕ) → Db
    → Db × Result (Option Job)
mark_failed_attempt now job worker_id attempt_no started_at error is_timeout backoff db =
    let held = is_held job.id worker_id in
    let next_run_at = retry_at now backoff attempt_no job.max_retries in
    let attempt = failed_attempt now job.id worker_id attempt_no started_at error is_timeout in
    let failed_row = fail_attempt now attempt_no job.max_retries error next_run_at in
    if count held db.jobs == 0
    then (db, ok (get_job job.id db))
    else commit db
        (Option.map (bury now job.id job.payload error attempt_no job.max_retries)
          (insert_attempt attempt (record db { jobs = update held failed_row db.jobs })))
        (get_job job.id)
