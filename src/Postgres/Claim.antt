-- ===== src/Postgres/Claim.antt =====
-- `claim_next_job` of app/postgres_repository.py.
pub mod Skips
pub mod Agree
use digitalocean.Base.{ℕ, Bool, not, ◌&&◌, Option, none, some, List, ◌==◌}
use digitalocean.Models.{Job}
use digitalocean.Sql.{select, update, order_by, first, returning}
use digitalocean.Repository.Store.{Db}
use digitalocean.Repository.Claim.{is_due, claims_before, lock}

-- `WHERE status = 'queued' AND run_at <= now ... FOR UPDATE SKIP LOCKED`
abbrev pub is_free : (locked : ℕ → Bool) → (now : ℕ) → Job → Bool
is_free locked now j = is_due now j && not (locked j.id)

unfoldable pub next_free : (locked : ℕ → Bool) → (now : ℕ) → List Job → Option Job
next_free locked now jobs = first (order_by claims_before (select (is_free locked now) jobs))

-- `UPDATE jobs SET ... WHERE id = %s RETURNING *`
unfoldable pub claim_row : ℕ → ℕ → Db → Option Job → Db × Option Job
claim_row now worker_id db none = (db, none)
claim_row now worker_id db (some row) = (
  record db { jobs = update (λ j. j.id == row.id) (lock now worker_id) db.jobs },
  first (returning (λ j. j.id == row.id) (lock now worker_id) db.jobs),
)

unfoldable pub claim_next_job : (locked : ℕ → Bool) → ℕ → ℕ → Db → Db × Option Job
claim_next_job locked now worker_id db = claim_row now worker_id db (next_free locked now db.jobs)
