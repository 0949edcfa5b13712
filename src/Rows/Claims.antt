-- ===== src/Rows/Claims.antt =====
-- The queries on the stored rows answer as those of the model.
use digitalocean.Base.{ℕ, ◌≡◌, refl, ◌&&◌, Option, none, some, List, ◌==◌, ltb, arith}
use digitalocean.Models.{
  Job, JobStatus, queued, running, succeeded, failed, dead_lettered, cancelled, is_status,
}
use digitalocean.Sql.{select, update, order_by}
use digitalocean.Sql.Related.{
  Related, RelatedAny, select-Related, find-Related, update-Related, order_by-Related,
  first-Related, limit-Related,
}
use digitalocean.DbTime.{DateTime, isoformat}
use digitalocean.DbTime.Calendar.{micros}
use digitalocean.DbTime.Order.{text_before}
use digitalocean.DbTime.Days.{text_before-isoformat}
use digitalocean.Repository.Store.{Db, get_job}
use digitalocean.Repository.Claim as Model
use digitalocean.Repository.Claim.{is_due, claims_before, lock, next_due, claim_next_job}
use digitalocean.Repository.Depth.{is_scheduled, list_scheduled_jobs}
use digitalocean.Rows.{Text, Loads, JobRow, status_text, is_text}
use digitalocean.Rows.Queries.{
  row_is_due, row_before, next_due_row, row_locked, claim_row, claim_next_row, scheduled_rows,
}
use digitalocean.Rows.Stored.{IsTime, Writes, IsStored}

pub is_text-queued :
    (s : JobStatus) → is_text (status_text s) (status_text queued) ≡ is_status s queued
is_text-queued queued = refl
is_text-queued running = refl
is_text-queued succeeded = refl
is_text-queued failed = refl
is_text-queued dead_lettered = refl
is_text-queued cancelled = refl

-- Texts compare as the times that they write.
pub text_before-Writes :
    (a b : Text) (m n : ℕ) → Writes a m → Writes b n → text_before a b ≡ ltb m n
text_before-Writes a b m n (s, ok_s, text_s, at_s) (t, ok_t, text_t, at_t) =
    rw (text_s, text_t, ← at_s, ← at_t) (text_before-isoformat s t ok_s.0 ok_t.0 ok_s.1 ok_t.1)

module _ (loads : Loads) where
  row_is_due-agrees :
      (now : DateTime) (row : JobRow) (j : Job)
      → IsTime now
      → IsStored loads row j
      → row_is_due (isoformat now) row ≡ is_due (micros now) j
  row_is_due-agrees now row j ok s =
      let later =
        text_before-Writes (isoformat now) row.run_at (micros now) j.run_at (now, ok, refl, refl)
          s.run_at in
      rw (s.status, is_text-queued j.status, later) (ground arith)

  row_before-agrees :
      (row row' : JobRow) (j j' : Job)
      → IsStored loads row j
      → IsStored loads row' j'
      → row_before row row' ≡ claims_before j j'
  unfolding claims_before
  row_before-agrees row row' j j' s s' =
      let run = text_before-Writes row.run_at row'.run_at j.run_at j'.run_at s.run_at s'.run_at in
      let run' = text_before-Writes row'.run_at row.run_at j'.run_at j.run_at s'.run_at s.run_at in
      let created =
        text_before-Writes row.created_at row'.created_at j.created_at j'.created_at s.created_at
          s'.created_at in
      rw (s.priority, s'.priority, run, run', created) refl

  pub next_due_row-Related :
      (now : DateTime) (rows : List JobRow) (jobs : List Job)
      → IsTime now
      → Related (IsStored loads) rows jobs
      → RelatedAny (IsStored loads) (next_due_row (isoformat now) rows) (next_due (micros now) jobs)
  unfolding next_due_row next_due
  next_due_row-Related now rows jobs ok r =
      let due = row_is_due (isoformat now) in
      let chosen =
        select-Related (IsStored loads) due (is_due (micros now))
          (λ row j s. row_is_due-agrees now row j ok s) rows jobs r in
      let sorted =
        order_by-Related (IsStored loads) row_before claims_before row_before-agrees
          (select due rows) (select (is_due (micros now)) jobs) chosen in
      first-Related (IsStored loads) (order_by row_before (select due rows))
        (order_by claims_before (select (is_due (micros now)) jobs)) sorted

  row_locked-IsStored :
      (now : DateTime) (w : ℕ) (row : JobRow) (j : Job)
      → IsTime now
      → IsStored loads row j
      → IsStored loads (row_locked (isoformat now) w row) (lock (micros now) w j)
  row_locked-IsStored now w row j ok s = record {
    id = s.id;
    idempotency_key = s.idempotency_key;
    request_fingerprint = s.request_fingerprint;
    schedule_id = s.schedule_id;
    scheduled_for = s.scheduled_for;
    status = refl;
    payload = s.payload;
    result = s.result;
    priority = s.priority;
    max_retries = s.max_retries;
    timeout_seconds = s.timeout_seconds;
    attempt_count = s.attempt_count;
    last_error = s.last_error;
    run_at = s.run_at;
    locked_by = refl;
    locked_at = (now, ok, refl, refl);
    created_at = s.created_at;
    updated_at = (now, ok, refl, refl);
    finished_at = s.finished_at;
  }

  -- The tables and the answer after a claim.
  abbrev pub Claimed : List JobRow × Option JobRow → Db × Option Job → Type 0
  Claimed (rows, row) (db, job) =
      Related (IsStored loads) rows db.jobs × RelatedAny (IsStored loads) row job

  claim_row-Claimed :
      (now : DateTime) (w : ℕ) (rows : List JobRow) (db : Db) (o : Option JobRow) (o' : Option Job)
      → IsTime now
      → Related (IsStored loads) rows db.jobs
      → RelatedAny (IsStored loads) o o'
      → Claimed (claim_row (isoformat now) w rows o) (Model.claim_row (micros now) w db o')
  unfolding claim_row Model.claim_row get_job
  claim_row-Claimed now w rows db none none ok r same = (r, tt)
  claim_row-Claimed now w rows db none (some j) ok r same = absurd same
  claim_row-Claimed now w rows db (some row) none ok r same = absurd same
  claim_row-Claimed now w rows db (some row) (some j) ok r same =
      let written =
        update-Related (IsStored loads)
          (λ x. x.id == row.id && is_text x.status (status_text queued))
          (λ x. x.id == j.id && is_status x.status queued)
          (λ x y s. rw (s.id, same.id, s.status, is_text-queued y.status) refl)
          (row_locked (isoformat now) w) (lock (micros now) w)
          (λ x y s. row_locked-IsStored now w x y ok s) rows db.jobs r in
      (
        written,
        find-Related (IsStored loads) (λ x. x.id == row.id) (λ x. x.id == j.id)
            (λ x y s. rw (s.id, same.id) refl)
            (update (λ x. x.id == row.id && is_text x.status (status_text queued))
              (row_locked (isoformat now) w) rows)
            (update (λ x. x.id == j.id && is_status x.status queued) (lock (micros now) w) db.jobs)
            written,
      )

  -- When every stored row of jobs stands for the job of the model at its place (its times as texts
  -- of `isoformat` for datetimes of the calendar, its status as the text of the enumeration, its
  -- JSON as a text that `json.loads` reads), a claim on the stored rows, which compares times and
  -- statuses as texts, leaves rows that stand for the jobs that a claim of the model leaves, and
  -- answers a row that stands for the job that the model answers, or nothing where the model does.
  pub claim_next_row-Claimed :
      (now : DateTime) (w : ℕ) (rows : List JobRow) (db : Db)
      → IsTime now
      → Related (IsStored loads) rows db.jobs
      → Claimed (claim_next_row (isoformat now) w rows) (claim_next_job (micros now) w db)
  unfolding claim_next_row claim_next_job
  claim_next_row-Claimed now w rows db ok r =
      claim_row-Claimed now w rows db (next_due_row (isoformat now) rows)
        (next_due (micros now) db.jobs) ok r (next_due_row-Related now rows db.jobs ok r)

  pub scheduled_rows-Related :
      (now : DateTime) (n : ℕ) (rows : List JobRow) (db : Db)
      → IsTime now
      → Related (IsStored loads) rows db.jobs
      → Related
          (IsStored loads)
          (scheduled_rows (isoformat now) n rows)
          (list_scheduled_jobs (micros now) n db)
  unfolding scheduled_rows list_scheduled_jobs
  scheduled_rows-Related now n rows db ok r =
      let waits = λ (x : JobRow).
        is_text x.status (status_text queued) && text_before (isoformat now) x.run_at in
      let chosen =
        select-Related (IsStored loads) waits (is_scheduled (micros now))
          (λ row j s.
            rw
              (
                s.status,
                is_text-queued j.status,
                text_before-Writes (isoformat now) row.run_at (micros now) j.run_at
                    (now, ok, refl, refl) s.run_at,
              )
              refl)
          rows db.jobs r in
      limit-Related (IsStored loads) n _ _ (
        order_by-Related (IsStored loads) (λ a b. text_before a.run_at b.run_at)
          (λ a b. ltb a.run_at b.run_at)
          (λ x x' y y' s s'.
            text_before-Writes x.run_at x'.run_at y.run_at y'.run_at s.run_at s'.run_at)
          (select waits rows) (select (is_scheduled (micros now)) db.jobs) chosen)
