-- ===== src/Postgres/Locks/Others.antt =====
-- Transactions that commit between the two statements of a claim: the reaper, and the cancellation
-- of a job that no claim holds.
use mathlib.Core.Option
use digitalocean.Base.{ℕ, ◌≡◌, refl, Bool, true, false, ◌&&◌, Option, none, some, arith, ◌∙◌, subst}
use native.Mathlib.Decide.{ℕ_discrete}
use digitalocean.Models.{Job, queued, is_status}
use digitalocean.Repository.Store.{get_job}
use digitalocean.Repository.Cancel.{cancel, cancel_job}
use digitalocean.Repository.Recover.{is_expired}
use digitalocean.Repository.Invariant.{IsValid}
use digitalocean.Repository.Invariant.Recover.{abandon}
use digitalocean.Repository.Invariant.Views.{get_job-update_ne, get_job-id}
use digitalocean.System.Steps.{map-IsGood, abandon-Moves, abandon_stops, cancel_job-IsGood}
use digitalocean.Postgres.Recover.{is_seen, recover_stale_jobs}
use digitalocean.Postgres.Recover.Skips.{free_row, reap_skips_locked}
use digitalocean.Postgres.Locks.{State, is_locked, Step, other, changed}

-- A row that is locked stays.
free_row-locked :
    (locked : ℕ → Bool) (now grace k : ℕ) (o : Option Job)
    → ((j : Job) → o ≡ some j → j.id ≡ k)
    → locked k ≡ true
    → Option.map (free_row locked now grace) o ≡ o
free_row-locked locked now grace k none named held = refl
free_row-locked locked now grace k (some j) named held =
    let same : locked j.id ≡ true = rw (named j refl) held in rw same (ground arith)

-- The cancellation of a row that is free leaves the locked rows.
pub cancel_job-keeps :
    (now job_id : ℕ) (s : State)
    → is_locked s.claims job_id ≡ false
    → (k : ℕ) → is_locked s.claims k ≡ true
    → get_job k (cancel_job now job_id s.db).0 ≡ get_job k s.db
unfolding cancel_job
cancel_job-keeps now job_id s free k held = elim (ℕ_discrete job_id k) [
  | yes e ↦ absurd (let gone = subst (λ m. is_locked s.claims m ≡ false) e free in cc)
  | no ne ↦
      get_job-update_ne job_id k (λ j. is_status j.status queued) (cancel now) s.db _ (λ j. refl)
        refl (ground arith)
]

module _ (s : State) (v : IsValid s.db) where
  -- The reaper passes over the rows that the claims hold.
  pub recover_stale_jobs-Step :
      (now grace : ℕ)
      → Step s
          (some changed)
          (record s { db = (recover_stale_jobs (is_locked s.claims) now grace s.db).0 })
  recover_stale_jobs-Step now grace =
      let locked = is_locked s.claims in
      let (answer, valid, all) = reap_skips_locked locked now grace s.db v in
      other s (recover_stale_jobs locked now grace s.db).0
        (map-IsGood (λ j. is_seen locked j && is_expired now grace j) (abandon now)
          (λ j h. abandon-Moves now j (ground arith)) (λ j h. abandon_stops now j) s.db _ valid all)
        (λ k held.
          all k
          ∙ free_row-locked locked now grace k (get_job k s.db) (λ j e. get_job-id k s.db e) held)

  -- The cancellation of a row waits while a claim holds the row.
  pub cancel_job-Step :
      (now job_id : ℕ)
      → is_locked s.claims job_id ≡ false
      → Step s (some changed) (record s { db = (cancel_job now job_id s.db).0 })
  cancel_job-Step now job_id free =
      other s (cancel_job now job_id s.db).0 (cancel_job-IsGood now job_id s.db v)
        (cancel_job-keeps now job_id s free)
