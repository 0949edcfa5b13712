-- ===== src/System/Claim.antt =====
-- A claim: what it does to the job that it hands out, and to all others.
use mathlib.Core.Option
use digitalocean.Base.{
  ℕ, ◌≡◌, refl, Bool, true, false, ◌&&◌, Option, none, some, ◌==◌, if◌then◌else◌, arith,
  Option-cases, Bool-cases, inl, inr, subst, sym, some_inj,
}
use digitalocean.Models.{Job, queued, is_status}
use digitalocean.Repository.Store.{Db, get_job}
use digitalocean.Repository.Claim.{claim_next_job, claim_row, next_due, lock}
use digitalocean.Repository.Invariant.{IsValid}
use digitalocean.Repository.Invariant.Views.{get_job-update, get_job-id}
use digitalocean.Repository.Claim.Order.{locking}
use digitalocean.Repository.Invariant.Quiet.{update-IsValid, lock-Keeps}
use digitalocean.Repository.Invariant.Marks.{holder}
use digitalocean.System.{Lease, lease_of}
use digitalocean.System.Evolve.{allows, Moves, Evolves, Evolves-refl, Evolves-map}
use digitalocean.System.Commit.{Fences}

lock-Moves : (now w : ℕ) (j : Job) → is_status j.status queued ≡ true → Moves j (lock now w j)
unfolding allows
lock-Moves now w j q = ground arith

-- What a claim does to each job: another worker's lease stays where it was.
abbrev pub OthersKeep : ℕ → Option Job → Option Job → Type 0
OthersKeep w o none = Unit
OthersKeep w o (some j') = (v : ℕ) → (w == v) ≡ false → holder v j' ≡ true → o ≡ some j'

OthersKeep-map :
    (now w : ℕ) (p : Job → Bool) (o : Option Job)
    → OthersKeep w o (Option.map (λ j. if p j then lock now w j else j) o)
OthersKeep-map now w p none = tt
OthersKeep-map now w p (some j) = elim (Bool-cases (p j)) [
  | inl e ↦ rw e (λ v other h. absurd (ground arith))
  | inr e ↦ rw e (λ v other h. refl)
]

pub record IsClaim (w : ℕ) (started_at : ℕ) (db : Db) (r : Db × Option Job) : Type 0 where
  pub valid : IsValid r.0
  pub evolves : (k : ℕ) → Evolves (get_job k db) (get_job k r.0)
  pub others : (k : ℕ) → OthersKeep w (get_job k db) (get_job k r.0)
  pub mine : (l : Lease) → lease_of started_at r.1 ≡ some l → Fences w l (get_job l.job.id r.0)

OthersKeep-refl : (w : ℕ) (o : Option Job) → OthersKeep w o o
OthersKeep-refl w none = tt
OthersKeep-refl w (some j) = λ v other h. refl

lease-Fences :
    (w started_at k : ℕ) (db : Db) (o : Option Job) (l : Lease)
    → get_job k db ≡ o
    → lease_of started_at o ≡ some l
    → Fences w l (get_job l.job.id db)
lease-Fences w started_at k db none l e h = cc
lease-Fences w started_at k db (some j) l e h =
    let named = get_job-id k db e in
    let found = subst (λ m. get_job m db ≡ some j) (sym named) e in
    subst (λ (x : Lease). Fences w x (get_job x.job.id db)) (some_inj h)
      (rw found (inr (refl, refl)))

pub locking-IsValid :
    (now w : ℕ) (db : Db) (row : Job) → IsValid db → IsValid (locking now w db row)
locking-IsValid now w db row v =
    update-IsValid (λ j. j.id == row.id && is_status j.status queued) (lock now w) (λ j. refl)
      (λ j q. lock-Keeps now w j (ground arith)) db v

-- The update of the row, and the row that a lookup finds after it.
pub locking-IsClaim :
    (now started_at w : ℕ) (db : Db) (row : Job) (o : Option Job)
    → IsValid db
    → get_job row.id (locking now w db row) ≡ o
    → IsClaim w started_at db (locking now w db row, o)
locking-IsClaim now started_at w db row o v e =
    let p = λ (j : Job). j.id == row.id && is_status j.status queued in
    let view = λ (k : ℕ). get_job-update p (lock now w) db k (λ j. refl) in
    record {
      valid = locking-IsValid now w db row v;
      evolves = λ k.
          rw (view k)
            (Evolves-map p (lock now w) (get_job k db) (λ j h. lock-Moves now w j (ground arith)));
      others = λ k. rw (view k) (OthersKeep-map now w p (get_job k db));
      mine = λ l h. lease-Fences w started_at row.id (locking now w db row) o l e h;
    }

-- A claim keeps the tables consistent, makes one transition, and fences the row that it returns.
pub claim_next_job-IsClaim :
    (now started_at w : ℕ) (db : Db)
    → IsValid db
    → IsClaim w started_at db (claim_next_job now w db)
unfolding claim_next_job claim_row
claim_next_job-IsClaim now started_at w db v = elim (Option-cases (next_due now db.jobs)) [
  | inl idle ↦
      rw (idle, claim_row)
        (record {
          valid = v;
          evolves = λ k. Evolves-refl (get_job k db);
          others = λ k. OthersKeep-refl w (get_job k db);
          mine = λ l h. absurd (cc);
        })
  | inr (row, due) ↦ rw (due, claim_row) (locking-IsClaim now started_at w db row _ v refl)
]
