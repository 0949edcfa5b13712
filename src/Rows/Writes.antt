-- ===== src/Rows/Writes.antt =====
-- The inserts, the cancellation and the drain of app/repository.py on the stored rows, where the
-- unique index on (schedule_id, scheduled_for) compares texts.
pub mod Agree
use digitalocean.Base.{
  ℕ, Bool, false, ◌&&◌, ◌||◌, Option, none, some, List, [], ◌∷◌, ◌++◌, ◌==◌, is_same, is_some,
  if◌then◌else◌,
}
use digitalocean.Models.{queued, cancelled}
use digitalocean.Sql.{find, update, count}
use digitalocean.Rows.{Text, JobRow, status_text, is_text}

-- Two columns of texts: NULL equals nothing.
abbrev pub same_text : Option Text → Option Text → Bool
same_text (some a) (some b) = is_text a b
same_text _ _ = false

-- Two rows that the primary key or a unique index keeps apart.
abbrev pub row_clashes : JobRow → JobRow → Bool
row_clashes row r =
    r.id == row.id
    || is_same r.idempotency_key row.idempotency_key
    || is_same r.schedule_id row.schedule_id && same_text r.scheduled_for row.scheduled_for

-- `INSERT INTO jobs`; `none` is an IntegrityError.
unfoldable pub insert_row : JobRow → List JobRow → Option (List JobRow)
insert_row row rows =
    if is_some (find (row_clashes row) rows) then none else some (rows ++ row ∷ [])

-- `SET status = 'cancelled', updated_at = ?, finished_at = ?`
abbrev pub row_cancelled : (now : Text) → JobRow → JobRow
row_cancelled now row = record row {
  status = status_text cancelled;
  updated_at = now;
  finished_at = some now;
}

-- `cancel_job`
unfoldable pub cancel_row : (now : Text) → (job_id : ℕ) → List JobRow → List JobRow × Option JobRow
cancel_row now job_id rows =
    let rows' =
      update (λ r. r.id == job_id && is_text r.status (status_text queued)) (row_cancelled now)
        rows in
    (rows', find (λ r. r.id == job_id) rows')

-- `drain_queue`
unfoldable pub drain_rows : (now : Text) → List JobRow → List JobRow × ℕ
drain_rows now rows =
    let is_queued = λ (r : JobRow). is_text r.status (status_text queued) in
    (update is_queued (row_cancelled now) rows, count is_queued rows)
