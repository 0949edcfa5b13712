-- ===== src/Rows/Queries.antt =====
-- `claim_next_job` and `list_scheduled_jobs` of app/repository.py on the stored rows, where times and
-- statuses are compared as texts.
use digitalocean.Base.{
  ℕ, Bool, true, false, not, ◌&&◌, Option, none, some, List, ◌==◌, ltb_ℤ, if◌then◌else◌,
}
use digitalocean.Models.{queued, running}
use digitalocean.Sql.{select, find, update, order_by, limit, first}
use digitalocean.DbTime.Order.{text_before}
use digitalocean.Rows.{Text, JobRow, status_text, is_text}

-- `a <= b` on texts.
abbrev pub text_at_most : Text → Text → Bool
text_at_most a b = not (text_before b a)

-- `WHERE status = 'queued' AND run_at <= ?` of `claim_next_job`
abbrev pub row_is_due : (now : Text) → JobRow → Bool
row_is_due now row = is_text row.status (status_text queued) && text_at_most row.run_at now

-- `ORDER BY priority DESC, run_at ASC, created_at ASC`
abbrev pub row_before : JobRow → JobRow → Bool
row_before a b =
    if ltb_ℤ b.priority a.priority
    then true
    else (if ltb_ℤ a.priority b.priority
        then false
        else (if text_before a.run_at b.run_at
            then true
            else (if text_before b.run_at a.run_at
                then false
                else text_before a.created_at b.created_at)))

unfoldable pub next_due_row : (now : Text) → List JobRow → Option JobRow
next_due_row now rows = first (order_by row_before (select (row_is_due now) rows))

-- `SET status = 'running', locked_by = ?, locked_at = ?, updated_at = ?`
abbrev pub row_locked : (now : Text) → (worker_id : ℕ) → JobRow → JobRow
row_locked now worker_id row = record row {
  status = status_text running;
  locked_by = some worker_id;
  locked_at = some now;
  updated_at = now;
}

unfoldable pub claim_row :
    (now : Text) → (worker_id : ℕ) → List JobRow → Option JobRow → List JobRow × Option JobRow
claim_row now worker_id rows none = (rows, none)
claim_row now worker_id rows (some row) =
    let rows' =
      update (λ r. r.id == row.id && is_text r.status (status_text queued))
        (row_locked now worker_id) rows in
    (rows', find (λ r. r.id == row.id) rows')

-- `claim_next_job` on the stored rows.
unfoldable pub claim_next_row :
    (now : Text) → (worker_id : ℕ) → List JobRow → List JobRow × Option JobRow
claim_next_row now worker_id rows = claim_row now worker_id rows (next_due_row now rows)

-- `list_scheduled_jobs` on the stored rows: `run_at > ? ORDER BY run_at ASC LIMIT ?`
unfoldable pub scheduled_rows : (now : Text) → (max_rows : ℕ) → List JobRow → List JobRow
scheduled_rows now max_rows rows = limit max_rows (
    order_by (λ a b. text_before a.run_at b.run_at)
      (select (λ r. is_text r.status (status_text queued) && text_before now r.run_at) rows))
