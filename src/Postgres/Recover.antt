-- ===== src/Postgres/Recover.antt =====
-- `recover_stale_jobs` of app/postgres_repository.py.
pub mod Skips
use mathlib.Core.Option
use digitalocean.Base.{
  ℕ, ◌+◌, Bool, not, ◌&&◌, Option, none, some, List, [], ◌∷◌, ◌==◌, if◌then◌else◌,
}
use digitalocean.Models.{Job}
use digitalocean.Sql.{select, update, count}
use digitalocean.Repository.Store.{Db, Result, insert_attempt}
use digitalocean.Repository.Finish.{fail_attempt}
use digitalocean.Repository.Recover.{
  is_leased, is_expired, lease_error, is_same_lease, abandoned_attempt, recovered_or_raise,
}
use digitalocean.Postgres.Finish.{bury}

-- `WHERE status = 'running' AND locked_at IS NOT NULL FOR UPDATE SKIP LOCKED`
abbrev pub is_seen : (locked : ℕ → Bool) → Job → Bool
is_seen locked j = is_leased j && not (locked j.id)

-- The body of the loop for an expired row.
unfoldable pub recover_row : ℕ → Job → Db → Option (Db × ℕ)
recover_row now row db =
    let attempt_no = row.attempt_count + 1 in
    let requeued = fail_attempt now attempt_no row.max_retries lease_error now in
    if count (is_same_lease row) db.jobs == 0
    then some (db, 0)
    else Option.map
        (λ db'. (bury now row.id row.payload lease_error attempt_no row.max_retries db', 1))
        (insert_attempt (abandoned_attempt now row)
          (record db { jobs = update (is_same_lease row) requeued db.jobs }))

abbrev pub visit_row : ℕ → ℕ → Job → Db → Option (Db × ℕ)
visit_row now grace row db =
    if is_expired now grace row then recover_row now row db else some (db, 0)

unfoldable pub recover_rows : (now lease_grace : ℕ) → List Job → Db → ℕ → Option (Db × ℕ)
recover_rows now grace [] db recovered = some (db, recovered)
recover_rows now grace (row ∷ rows) db recovered = elim (visit_row now grace row db) [
  | none ↦ none
  | some (db', one) ↦ recover_rows now grace rows db' (recovered + one)
]

unfoldable pub recover_stale_jobs : (locked : ℕ → Bool) → (now lease_grace : ℕ) → Db → Db × Result ℕ
recover_stale_jobs locked now grace db =
    recovered_or_raise db (recover_rows now grace (select (is_seen locked) db.jobs) db 0)
