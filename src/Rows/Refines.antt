-- ===== src/Rows/Refines.antt =====
-- The operations on the stored rows refine those of the model.
use digitalocean.Base.{ℕ, ◌≡◌, List}
use digitalocean.Models.{Job}
use digitalocean.Sql.Related.{Related}
use digitalocean.DbTime.{DateTime, isoformat}
use digitalocean.DbTime.Calendar.{micros}
use digitalocean.Repository.Store.{Db, insert_job}
use digitalocean.Repository.Claim.{claim_next_job}
use digitalocean.Repository.Cancel.{cancel_job, drain_queue}
use digitalocean.Repository.Depth.{list_scheduled_jobs}
use digitalocean.Rows.{Loads, JobRow}
use digitalocean.Rows.Stored.{IsTime, IsStored}
use digitalocean.Rows.Queries.{claim_next_row, scheduled_rows}
use digitalocean.Rows.Claims.{Claimed, claim_next_row-Claimed, scheduled_rows-Related}
use digitalocean.Rows.Writes.{insert_row, cancel_row, drain_rows}
use digitalocean.Rows.Writes.Agree.{
  Inserted, insert_row-Inserted, cancel_row-Claimed, drain_rows-Related,
}

-- When every stored row of jobs stands for the job of the model at its place (its times as texts of
-- `isoformat` for datetimes of the calendar, its status as the text of the enumeration, its JSON as
-- a text that `json.loads` reads), a claim, an insert of a stored row, a cancellation, a drain and
-- the list of scheduled jobs on the stored rows, which compare times and statuses as texts, leave
-- rows that stand for the jobs that those of the model leave, answer rows that stand for the jobs
-- that the model answers, and refuse an insert where the model does.
pub text_rows_refine :
    (loads : Loads) (now : DateTime) (rows : List JobRow) (db : Db) (row : JobRow) (j : Job)
    → IsTime now
    → Related (IsStored loads) rows db.jobs
    → IsStored loads row j
    → ((worker_id : ℕ)
        → Claimed loads
            (claim_next_row (isoformat now) worker_id rows)
            (claim_next_job (micros now) worker_id db))
      × Inserted loads (insert_row row rows) (insert_job j db)
      × ((job_id : ℕ)
          → Claimed loads
              (cancel_row (isoformat now) job_id rows)
              (cancel_job (micros now) job_id db))
      × Related
          (IsStored loads)
          (drain_rows (isoformat now) rows).0
          (drain_queue (micros now) db).0.jobs
      × ((drain_rows (isoformat now) rows).1 ≡ (drain_queue (micros now) db).1)
      × ((max_rows : ℕ)
          → Related
              (IsStored loads)
              (scheduled_rows (isoformat now) max_rows rows)
              (list_scheduled_jobs (micros now) max_rows db))
text_rows_refine loads now rows db row j ok r s =
    let (drained, counted) = drain_rows-Related loads now rows db ok r in
    (
      λ w. claim_next_row-Claimed loads now w rows db ok r,
      insert_row-Inserted loads row j rows db s r,
      λ k. cancel_row-Claimed loads now k rows db ok r,
      drained,
      counted,
      λ n. scheduled_rows-Related loads now n rows db ok r,
    )
