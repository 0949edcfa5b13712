-- ===== src/Repository/Invariant/Quiet.antt =====
-- The operations that only move a job between statuses: claiming and cancelling.
use mathlib.Core.Option
use digitalocean.Base.{
  ℕ, ◌≡◌, refl, Bool, true, ◌&&◌, Option, none, some, ◌==◌, if◌then◌else◌, arith, Option-cases,
  Bool-cases, inl, inr,
}
use digitalocean.Models.{Job, queued, dead_lettered, is_status}
use digitalocean.Sql.{update}
use digitalocean.Sql.Update.{Unique-update}
use digitalocean.Repository.Store.{Db, get_job}
use digitalocean.Repository.Claim.{claim_next_job, claim_row, next_due, lock}
use digitalocean.Repository.Cancel.{cancel, cancel_job, drain_queue}
use digitalocean.Repository.Invariant.{IsRow, Agrees, IsValid, has_attempt, has_dead_letter}
use digitalocean.Repository.Invariant.Views.{get_job-update}

-- A change of a row that keeps it well formed, and its attempts and death as they are.
abbrev pub Keeps : (Job → Job) → Job → Type 0
Keeps f j =
    IsRow j
    → IsRow (f j)
      × ((f j).attempt_count ≡ j.attempt_count)
      × (is_status (f j).status dead_lettered ≡ is_status j.status dead_lettered)

module _ (p : Job → Bool) (f : Job → Job) (same : (j : Job) → (f j).id ≡ j.id)
    (keeps : (j : Job) → p j ≡ true → Keeps f j) where
  Agrees-quiet :
      (k : ℕ) (o : Option Job) (log : ℕ → Bool) (dead : Bool)
      → Agrees k o log dead
      → Agrees k (Option.map (λ j. if p j then f j else j) o) log dead
  Agrees-quiet k none log dead a = a
  Agrees-quiet k (some j) log dead (key, row, logged, same_death) = elim (Bool-cases (p j)) [
    | inl e ↦
        let (row', count, death) = keeps j e row in
        rw e (rw (same j) key, row', λ n. rw count (logged n), rw death same_death)
    | inr e ↦ rw e (key, row, logged, same_death)
  ]

  pub update-IsValid : (db : Db) → IsValid db → IsValid (record db { jobs = update p f db.jobs })
  unfolding has_attempt has_dead_letter
  update-IsValid db v = record {
    keys = Unique-update (λ j. j.id) p f db.jobs same v.keys;
    agrees =
        λ k. rw (get_job-update p f db k same) (Agrees-quiet k (get_job k db) _ _ (v.agrees k));
  }

pub lock-Keeps : (now w : ℕ) (j : Job) → is_status j.status queued ≡ true → Keeps (lock now w) j
lock-Keeps now w j q row = ground arith

cancel-Keeps : (now : ℕ) (j : Job) → is_status j.status queued ≡ true → Keeps (cancel now) j
cancel-Keeps now j q row = ground arith

-- Claiming a job keeps the tables consistent.
pub claim_next_job-IsValid :
    (now w : ℕ) (db : Db) → IsValid db → IsValid (claim_next_job now w db).0
unfolding claim_next_job claim_row
claim_next_job-IsValid now w db v = elim (Option-cases (next_due now db.jobs)) [
  | inl e ↦ rw (e, claim_row) v
  | inr (row, e) ↦
      rw (e, claim_row)
        (update-IsValid (λ j. j.id == row.id && is_status j.status queued) (lock now w) (λ j. refl)
          (λ j h. lock-Keeps now w j (ground arith)) db v)
]

pub cancel_job-IsValid : (now k : ℕ) (db : Db) → IsValid db → IsValid (cancel_job now k db).0
unfolding cancel_job
cancel_job-IsValid now k db v =
    update-IsValid (λ j. j.id == k && is_status j.status queued) (cancel now) (λ j. refl)
      (λ j h. cancel-Keeps now j (ground arith)) db v

pub drain_queue-IsValid : (now : ℕ) (db : Db) → IsValid db → IsValid (drain_queue now db).0
unfolding drain_queue
drain_queue-IsValid now db v =
    update-IsValid (λ j. is_status j.status queued) (cancel now) (λ j. refl)
      (λ j h. cancel-Keeps now j h) db v
