-- ===== src/System/Steps.antt =====
-- What one transaction does to every job: it keeps the tables consistent, it follows the state
-- machine of a job, and no transaction but a claim hands out a lease.
use mathlib.Core.Option
use digitalocean.Base.{
  ℕ, ◌≡◌, refl, Bool, true, false, ◌&&◌, inl, inr, Option, none, some, ◌==◌, if◌then◌else◌, arith,
  Bool-cases, subst, sym,
}
use digitalocean.Models.{Job, queued, running, is_status}
use digitalocean.Repository.Store.{Db, get_job}
use digitalocean.Repository.Cancel.{cancel, cancel_job, drain_queue}
use digitalocean.Repository.Recover.{is_leased, is_expired, recover_stale_jobs}
use digitalocean.Repository.Invariant.{IsValid}
use digitalocean.Repository.Invariant.Views.{get_job-update}
use digitalocean.Repository.Invariant.Quiet.{cancel_job-IsValid, drain_queue-IsValid}
use digitalocean.Repository.Invariant.Recover.{abandon}
use digitalocean.Repository.Invariant.Reap.{recover_stale_jobs_lem}
use digitalocean.System.Evolve.{allows, Moves, Evolves, Evolves-refl, Evolves-same, Evolves-map}
use digitalocean.System.Entered.{Entered, AllEntered}

-- A job that runs afterwards was running before, the same way.
abbrev pub Unclaimed : Option Job → Option Job → Type 0
Unclaimed o none = Unit
Unclaimed o (some j') = is_status j'.status running ≡ true → o ≡ some j'

pub record IsGood (db db' : Db) : Type 0 where
  pub valid : IsValid db'
  pub evolves : (k : ℕ) → Evolves (get_job k db) (get_job k db')
  pub unclaimed : (k : ℕ) → Unclaimed (get_job k db) (get_job k db')

Unclaimed-refl : (o : Option Job) → Unclaimed o o
Unclaimed-refl none = tt
Unclaimed-refl (some j) = λ h. refl

pub Unclaimed-same : (o o' : Option Job) → o' ≡ o → Unclaimed o o'
Unclaimed-same o o' e = subst (Unclaimed o) (sym e) (Unclaimed-refl o)

pub IsGood-refl : (db : Db) → IsValid db → IsGood db db
IsGood-refl db v = record {
  valid = v;
  evolves = λ k. Evolves-refl (get_job k db);
  unclaimed = λ k. Unclaimed-refl (get_job k db);
}

Entered-Evolves : (o o' : Option Job) → Entered o o' → Evolves o o' × Unclaimed o o'
Entered-Evolves o o' (inl e) = (Evolves-same o o' e, Unclaimed-same o o' e)
Entered-Evolves o o' (inr (gone, (j, e, waits, untried))) =
    rw (gone, e) ((waits, untried), λ h. absurd (ground arith))

pub Entered-IsGood : (db db' : Db) → IsValid db' → AllEntered db db' → IsGood db db'
Entered-IsGood db db' v entered = record {
  valid = v;
  evolves = λ k. (Entered-Evolves (get_job k db) (get_job k db') (entered k)).0;
  unclaimed = λ k. (Entered-Evolves (get_job k db) (get_job k db') (entered k)).1;
}

-- An update whose rows do not run afterwards.
module _ (p : Job → Bool) (f : Job → Job) (moves : (j : Job) → p j ≡ true → Moves j (f j))
    (stops : (j : Job) → p j ≡ true → is_status (f j).status running ≡ false) where
  Unclaimed-map : (o : Option Job) → Unclaimed o (Option.map (λ j. if p j then f j else j) o)
  Unclaimed-map none = tt
  Unclaimed-map (some j) = elim (Bool-cases (p j)) [
    | inl e ↦ rw e (λ h. absurd (let s = stops j e in cc))
    | inr e ↦ rw e (λ h. refl)
  ]

  pub map-IsGood :
      (db db' : Db)
      → IsValid db'
      → ((k : ℕ) → get_job k db' ≡ Option.map (λ j. if p j then f j else j) (get_job k db))
      → IsGood db db'
  map-IsGood db db' v all = record {
    valid = v;
    evolves = λ k. rw (all k) (Evolves-map p f (get_job k db) moves);
    unclaimed = λ k. rw (all k) (Unclaimed-map (get_job k db));
  }

cancel-Moves : (now : ℕ) (j : Job) → is_status j.status queued ≡ true → Moves j (cancel now j)
unfolding allows
cancel-Moves now j q = ground arith

pub cancel_job-IsGood : (now k : ℕ) (db : Db) → IsValid db → IsGood db (cancel_job now k db).0
unfolding cancel_job
cancel_job-IsGood now k db v =
    map-IsGood (λ j. j.id == k && is_status j.status queued) (cancel now)
      (λ j h. cancel-Moves now j (ground arith)) (λ j h. refl) db (cancel_job now k db).0
      (cancel_job-IsValid now k db v)
      (λ m.
        get_job-update (λ j. j.id == k && is_status j.status queued) (cancel now) db m (λ j. refl))

pub drain_queue-IsGood : (now : ℕ) (db : Db) → IsValid db → IsGood db (drain_queue now db).0
unfolding drain_queue
drain_queue-IsGood now db v =
    map-IsGood (λ j. is_status j.status queued) (cancel now) (cancel-Moves now) (λ j h. refl) db
      (drain_queue now db).0 (drain_queue-IsValid now db v)
      (λ m. get_job-update (λ j. is_status j.status queued) (cancel now) db m (λ j. refl))

pub abandon-Moves : (now : ℕ) (j : Job) → is_leased j ≡ true → Moves j (abandon now j)
unfolding allows
abandon-Moves now j leased = ground arith

pub abandon_stops : (now : ℕ) (j : Job) → is_status (abandon now j).status running ≡ false
abandon_stops now j = ground arith

pub recover_stale_jobs-IsGood :
    (now grace : ℕ) (db : Db) → IsValid db → IsGood db (recover_stale_jobs now grace db).0
recover_stale_jobs-IsGood now grace db v =
    let (answer, valid, all) = recover_stale_jobs_lem now grace db v in
    map-IsGood (λ j. is_leased j && is_expired now grace j) (abandon now)
      (λ j h. abandon-Moves now j (ground arith)) (λ j h. abandon_stops now j) db
      (recover_stale_jobs now grace db).0 valid all
