-- ===== src/Repository/Claim/Order.antt =====
-- Which job a claim hands out: of the due jobs, one of the highest priority, and of those the one
-- that has been due longest.
use digitalocean.Base.{
  ℕ, ◌≡◌, ◌≤◌, refl, true, false, ◌&&◌, Option, none, some, ◌==◌, if◌then◌else◌, arith,
  Option-cases, inl, inr, subst, ◌∙◌,
}
use native.Mathlib.Decide.{ℕ_discrete}
use digitalocean.Models.{Job, queued, is_status}
use digitalocean.Sql.{update}
use digitalocean.Repository.Store.{Db, get_job}
use digitalocean.Repository.Invariant.{IsValid}
use digitalocean.Repository.Invariant.Views.{get_job-update, get_job-update_ne}
use digitalocean.Repository.Claim.Pick.{OutranksAny, passing, Stands, pick-some, pick-none}
use digitalocean.Repository.Claim.{is_due, lock, next_due, claim_row, claim_next_job}

-- A job, if it is due.
abbrev pub due_job : ℕ → Option Job → Option Job
due_job now o = passing (is_due now) o

-- What a claim answers: nothing if no job is due; otherwise the locked row of a due job that
-- outranks all due jobs, and every other job is as before.
abbrev pub Claims : (now worker_id : ℕ) → Db → Db × Option Job → Type 0
Claims now w db (db', none) = (db' ≡ db) × ((k : ℕ) → due_job now (get_job k db) ≡ none)
Claims now w db (db', some claimed) =
    (row : Job) × (get_job row.id db ≡ some row)
    × (row.status ≡ queued)
    × (row.run_at ≤ now)
    × (claimed ≡ lock now w row)
    × ((k : ℕ) → OutranksAny row (due_job now (get_job k db)))
    × ((k : ℕ) → get_job k db' ≡ (if row.id == k then some claimed else get_job k db))

pub queued_of : (j : Job) → is_status j.status queued ≡ true → j.status ≡ queued
queued_of j e = ground arith

-- The update of a claim.
abbrev pub locking : (now worker_id : ℕ) → Db → Job → Db
locking now w db row = record db {
  jobs = update (λ j. j.id == row.id && is_status j.status queued) (lock now w) db.jobs;
}

-- The claimed row, in the tables after the update.
pub locked_row :
    (now w : ℕ) (db : Db) (row : Job)
    → Stands (is_due now) db row
    → get_job row.id (locking now w db row) ≡ some (lock now w row)
locked_row now w db row (found, due) =
    get_job-update (λ j. j.id == row.id && is_status j.status queued) (lock now w) db row.id
      (λ j. refl)
    ∙ rw found (ground arith)

-- Every row after the update.
pub locked_rows :
    (now w : ℕ) (db : Db) (row : Job)
    → Stands (is_due now) db row
    → (k : ℕ)
    → get_job k (locking now w db row)
      ≡ (if row.id == k then some (lock now w row) else get_job k db)
locked_rows now w db row stands k =
    let q = λ (j : Job). is_status j.status queued in
    let db' = locking now w db row in
    elim (ℕ_discrete row.id k) [
      | yes e ↦
          let same : (row.id == k) ≡ true = ground arith in
          rw same
            (subst (λ m. get_job m db' ≡ some (lock now w row)) e (locked_row now w db row stands))
      | no ne ↦
          let other : (row.id == k) ≡ false = ground arith in
          rw other (get_job-update_ne row.id k q (lock now w) db db' (λ j. refl) refl other)
    ]

claim_row-Claims :
    (now w : ℕ) (db : Db) (row : Job)
    → Stands (is_due now) db row
    → ((k : ℕ) → OutranksAny row (due_job now (get_job k db)))
    → Claims now w db (claim_row now w db (some row))
unfolding claim_row
claim_row-Claims now w db row stands outranks = rw (locked_row now w db row stands) (
  row,
  stands.0,
  queued_of row (ground arith),
  ground arith,
  refl,
  outranks,
  locked_rows now w db row stands,
)

idle-Claims :
    (now w : ℕ) (db : Db) → next_due now db.jobs ≡ none → Claims now w db (claim_row now w db none)
unfolding claim_row next_due
idle-Claims now w db idle = (refl, pick-none (is_due now) db idle)

-- On consistent tables a claim answers nothing, changes nothing and there is no due job; or there
-- is a due job that outranks every due job (higher priority, then earlier run_at, then no later
-- created_at), the claim answers its row locked by the worker, and it changes the row of this job
-- and of no other.
pub claim_next_job_lem :
    (now w : ℕ) (db : Db) → IsValid db → Claims now w db (claim_next_job now w db)
unfolding claim_next_job next_due
claim_next_job_lem now w db v = elim (Option-cases (next_due now db.jobs)) [
  | inl idle ↦ rw idle (idle-Claims now w db idle)
  | inr (row, e) ↦
      let (stands, outranks) = pick-some (is_due now) db row v.keys e in
      rw e (claim_row-Claims now w db row stands outranks)
]
