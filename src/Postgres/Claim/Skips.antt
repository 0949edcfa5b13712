-- ===== src/Postgres/Claim/Skips.antt =====
-- Which job a claim of PostgreSQL hands out while other transactions hold rows.
use digitalocean.Base.{
  ℕ, ◌≡◌, ◌≤◌, refl, Bool, false, Option, none, some, ◌==◌, if◌then◌else◌, arith, Option-cases, inl,
  inr,
}
use digitalocean.Models.{Job, queued, is_status}
use digitalocean.Sql.Returning.{update-key, first-returning_key}
use digitalocean.Repository.Store.{Db, get_job}
use digitalocean.Repository.Invariant.{IsValid}
use digitalocean.Repository.Claim.{is_due, lock}
use digitalocean.Repository.Claim.Pick.{OutranksAny, passing, Stands, pick-some, pick-none}
use digitalocean.Repository.Claim.Order.{locking, locked_rows, queued_of}
use digitalocean.Postgres.Claim.{is_free, next_free, claim_row, claim_next_job}

-- A row that is due and stands in the table is updated and returned as SQLite updates and reads it.
pub claim_row-locking :
    (now w : ℕ) (db : Db) (row : Job)
    → IsValid db
    → Stands (is_due now) db row
    → claim_row now w db (some row) ≡ (locking now w db row, some (lock now w row))
unfolding claim_row get_job
claim_row-locking now w db row v (found, due) =
    let q = λ (j : Job). is_status j.status queued in
    let same =
      update-key (λ (j : Job). j.id) row.id q (lock now w) db.jobs {a = row} v.keys found
        (ground arith) in
    let returned = first-returning_key (λ (j : Job). j.id) row.id (lock now w) db.jobs found in
    rw (returned, same) refl

-- What a claim answers among the rows that no other transaction holds.
abbrev pub FreeClaims : (locked : ℕ → Bool) → (now worker_id : ℕ) → Db → Db × Option Job → Type 0
FreeClaims locked now w db (db', none) =
    (db' ≡ db) × ((k : ℕ) → passing (is_free locked now) (get_job k db) ≡ none)
FreeClaims locked now w db (db', some claimed) =
    (row : Job) × (get_job row.id db ≡ some row)
    × (row.status ≡ queued)
    × (row.run_at ≤ now)
    × (locked row.id ≡ false)
    × (claimed ≡ lock now w row)
    × ((k : ℕ) → OutranksAny row (passing (is_free locked now) (get_job k db)))
    × ((k : ℕ) → get_job k db' ≡ (if row.id == k then some claimed else get_job k db))

idle-FreeClaims :
    (locked : ℕ → Bool) (now w : ℕ) (db : Db)
    → next_free locked now db.jobs ≡ none
    → FreeClaims locked now w db (claim_row now w db none)
unfolding claim_row next_free
idle-FreeClaims locked now w db idle = (refl, pick-none (is_free locked now) db idle)

-- On consistent tables a claim of the PostgreSQL repository answers nothing, changes nothing and no
-- job that is due is free; or there is a due job that no other transaction holds and that outranks
-- every such job, the claim answers its row locked by the worker, and it changes the row of this
-- job and of no other.
pub skips_locked :
    (locked : ℕ → Bool) (now w : ℕ) (db : Db)
    → IsValid db
    → FreeClaims locked now w db (claim_next_job locked now w db)
unfolding claim_next_job next_free
skips_locked locked now w db v = elim (Option-cases (next_free locked now db.jobs)) [
  | inl idle ↦ rw idle (idle-FreeClaims locked now w db idle)
  | inr (row, e) ↦
      let ((found, free), outranks) = pick-some (is_free locked now) db row v.keys e in
      let stands : Stands (is_due now) db row = (found, ground arith) in
      rw (e, claim_row-locking now w db row v stands)
        (
          row,
          found,
          queued_of row (ground arith),
          ground arith,
          ground arith,
          refl,
          outranks,
          locked_rows now w db row stands,
        )
]
