-- ===== src/Repository/Claim.antt =====
-- `claim_next_job` of app/repository.py.
pub mod Rank
pub mod Pick
pub mod Order
use digitalocean.Base.{
  ℕ, Bool, true, false, ◌&&◌, Option, none, some, List, ◌==◌, ltb, leb, ltb_ℤ, if◌then◌else◌,
}
use digitalocean.Models.{Job, queued, running, is_status}
use digitalocean.Sql.{select, update, order_by, first}
use digitalocean.Repository.Store.{Db, get_job}

-- `WHERE status = 'queued' AND run_at <= now`
abbrev pub is_due : ℕ → Job → Bool
is_due now j = is_status j.status queued && leb j.run_at now

-- `ORDER BY priority DESC, run_at ASC, created_at ASC`
unfoldable pub claims_before : Job → Job → Bool
claims_before a b =
    if ltb_ℤ b.priority a.priority
    then true
    else (if ltb_ℤ a.priority b.priority
        then false
        else (if ltb a.run_at b.run_at
            then true
            else (if ltb b.run_at a.run_at then false else ltb a.created_at b.created_at)))

-- `SET status = 'running', locked_by = worker, locked_at = now, updated_at = now`
abbrev pub lock : ℕ → ℕ → Job → Job
lock now worker_id j = record j {
  status = running;
  locked_by = some worker_id;
  locked_at = some now;
  updated_at = now;
}

unfoldable pub next_due : ℕ → List Job → Option Job
next_due now jobs = first (order_by claims_before (select (is_due now) jobs))

unfoldable pub claim_row : ℕ → ℕ → Db → Option Job → Db × Option Job
claim_row now worker_id db none = (db, none)
claim_row now worker_id db (some row) =
    let db' = record db {
      jobs = update (λ j. j.id == row.id && is_status j.status queued) (lock now worker_id) db.jobs;
    } in
    (db', get_job row.id db')

unfoldable pub claim_next_job : ℕ → ℕ → Db → Db × Option Job
claim_next_job now worker_id db = claim_row now worker_id db (next_due now db.jobs)
