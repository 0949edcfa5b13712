-- ===== src/Rows/Views.antt =====
-- What the API shows of a stored row.
use mathlib.Core.Option
use digitalocean.Base.{◌>>=◌, ◌≡◌, refl, true, some}
use digitalocean.Models.{Job, is_dict}
use digitalocean.DbTime.Calendar.{micros}
use digitalocean.Rows.{Loads, JobRow, JobDict, JobView, is_result, job_from_row, view_of, job_view}
use digitalocean.Rows.Stored.{
  IsStored, time_of-Writes, time_or_null-Writes, result_of-Holds, to_status-status_text,
}

-- The fields of a view, with its times as numbers.
pub record Shows (v : JobView) (j : Job) : Type 0 where
  pub id : v.id ≡ j.id
  pub idempotency_key : v.idempotency_key ≡ j.idempotency_key
  pub schedule_id : v.schedule_id ≡ j.schedule_id
  pub scheduled_for : Option.map micros v.scheduled_for ≡ j.scheduled_for
  pub status : v.status ≡ j.status
  pub payload : v.payload ≡ j.payload
  pub result : v.result ≡ j.result
  pub priority : v.priority ≡ j.priority
  pub max_retries : v.max_retries ≡ j.max_retries
  pub timeout_seconds : v.timeout_seconds ≡ j.timeout_seconds
  pub attempt_count : v.attempt_count ≡ j.attempt_count
  pub last_error : v.last_error ≡ j.last_error
  pub run_at : micros v.run_at ≡ j.run_at
  pub locked_by : v.locked_by ≡ j.locked_by
  pub locked_at : Option.map micros v.locked_at ≡ j.locked_at
  pub created_at : micros v.created_at ≡ j.created_at
  pub updated_at : micros v.updated_at ≡ j.updated_at
  pub finished_at : Option.map micros v.finished_at ≡ j.finished_at

-- Every stored row that stands for a job of the model whose payload is a JSON object, and whose
-- result is missing, null or a JSON object, is read by `_job_from_row` without an exception and
-- passes the validation of JobView, and the view has the values of the job: its status, and each
-- time as a datetime of the same microsecond.
pub job_view-Shows :
    (loads : Loads) (row : JobRow) (j : Job)
    → IsStored loads row j
    → is_dict j.payload ≡ true
    → is_result j.result ≡ true
    → (v : JobView) × ((job_from_row loads row >>= job_view) ≡ some v) × Shows v j
unfolding job_from_row job_view
job_view-Shows loads row j s dict known =
    let (scheduled_for, e1, m1) =
      time_or_null-Writes row.scheduled_for j.scheduled_for s.scheduled_for in
    let (run_at, e2, m2) = time_of-Writes row.run_at j.run_at s.run_at in
    let (locked_at, e3, m3) = time_or_null-Writes row.locked_at j.locked_at s.locked_at in
    let (created_at, e4, m4) = time_of-Writes row.created_at j.created_at s.created_at in
    let (updated_at, e5, m5) = time_of-Writes row.updated_at j.updated_at s.updated_at in
    let (finished_at, e6, m6) = time_or_null-Writes row.finished_at j.finished_at s.finished_at in
    let read = result_of-Holds loads row.result j.result s.result in
    let d : JobDict = record {
      id = row.id;
      idempotency_key = row.idempotency_key;
      request_fingerprint = row.request_fingerprint;
      schedule_id = row.schedule_id;
      scheduled_for = scheduled_for;
      status = row.status;
      payload = j.payload;
      result = j.result;
      priority = row.priority;
      max_retries = row.max_retries;
      timeout_seconds = row.timeout_seconds;
      attempt_count = row.attempt_count;
      last_error = row.last_error;
      run_at = run_at;
      locked_by = row.locked_by;
      locked_at = locked_at;
      created_at = created_at;
      updated_at = updated_at;
      finished_at = finished_at;
    } in
    (
      view_of d j.status,
      rw e1 (
          rw s.payload (
            rw read (
              rw e2 (
                rw e3 (
                  rw e4 (
                    rw e5 (
                      rw e6
                        (rw (dict, known, s.status, to_status-status_text j.status) refl)))))))),
      record {
        id = s.id;
        idempotency_key = s.idempotency_key;
        schedule_id = s.schedule_id;
        scheduled_for = m1;
        status = refl;
        payload = refl;
        result = refl;
        priority = s.priority;
        max_retries = s.max_retries;
        timeout_seconds = s.timeout_seconds;
        attempt_count = s.attempt_count;
        last_error = s.last_error;
        run_at = m2;
        locked_by = s.locked_by;
        locked_at = m3;
        created_at = m4;
        updated_at = m5;
        finished_at = m6;
      },
    )
