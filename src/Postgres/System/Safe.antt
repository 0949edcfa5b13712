-- ===== src/Postgres/System/Safe.antt =====
-- What holds in every state that the steps on PostgreSQL reach.
use digitalocean.Base.{
  ℕ, ◌≡◌, String, true, Option, some, List, ◌==◌, arith, Option-cases, Bool-cases, inl, inr, subst,
  sym, ap, false, ◌∙◌,
}
use digitalocean.Sql.{find}
use digitalocean.Repository.Store.{Db, Exception, get_job}
use digitalocean.Repository.Create.{new_row}
use digitalocean.Repository.Claim.{lock}
use digitalocean.Repository.Claim.Order.{locked_rows}
use digitalocean.Repository.Schedules.{Cron}
use digitalocean.System.{Lease}
use digitalocean.System.Evolve.{Evolves, Evolves-refl}
use digitalocean.System.Steps.{IsGood, cancel_job-IsGood, drain_queue-IsGood}
use digitalocean.System.Asides.{Aside-IsQuiet}
use digitalocean.System.Commit.{Fences, Rests, Spares}
use digitalocean.System.Claim.{IsClaim, locking-IsClaim}
use digitalocean.System.Safe.{IsNaming, named_apart, Fences-Unclaimed, Fences-others, dropped}
use digitalocean.Postgres.Claim.{claim_row}
use digitalocean.Postgres.Locks.{Claim, of_row, is_locked, written}
use digitalocean.Postgres.Locks.Others.{cancel_job-keeps}
use digitalocean.Postgres.Locks.Refines.{
  IsLocked, of_claim, choose-IsLocked, written-row, write-IsLocked, abort-IsLocked, other-IsLocked,
}
use digitalocean.Postgres.System.{
  State, with_db, with_claims, handed_out, Step, insert, batch, materialize, cancel, drain, recover,
  switch, aside, choose, write, abort, finish, crash,
}
use digitalocean.Postgres.System.Spares.{
  insert_job-Spares, create_jobs_batch-Spares, materialize_due_schedules-Spares,
  recover_stale_jobs-Spares, ended-Spares, quiet-Spares, write_enabled-IsQuiet,
}

-- The tables are consistent, the open claims hold different rows that are due and stand as they
-- were chosen, and every thread's lease fences the row that it was taken from.
pub record IsSafe (worker_id : ℕ → ℕ) (s : State) : Type 0 where
  pub locked : IsLocked s.tables
  pub fenced :
      (t : ℕ) (l : Lease)
      → s.holding t ≡ some l
      → Fences (worker_id t) l (get_job l.job.id s.tables.db)

-- A transaction that leaves the queue leaves the rows of the claims.
Rests-kept :
    (s : State) (db' : Db)
    → IsLocked s.tables
    → ((k : ℕ) → Rests (get_job k s.tables.db) (get_job k db'))
    → (k : ℕ) → is_locked s.tables.claims k ≡ true
    → get_job k db' ≡ get_job k s.tables.db
Rests-kept s db' inv rests k held = elim (Option-cases (find (of_row k) s.tables.claims)) [
  | inl free ↦ absurd (ground arith)
  | inr (c, e) ↦
      let (found, due) = inv.keeps k c e in
      let stays = rests c.row.id c.row found (ground arith) in
      subst (λ m. get_job m db' ≡ get_job m s.tables.db) (of_claim k s.tables.claims c e)
        (stays ∙ sym found)
]

module _ (worker_id : ℕ → ℕ) where
  good-IsSafe :
      (s : State) (db' : Db) (holding' : ℕ → Option Lease)
      → IsSafe worker_id s
      → IsGood s.tables.db db'
      → ((k : ℕ) → is_locked s.tables.claims k ≡ true → get_job k db' ≡ get_job k s.tables.db)
      → ((w : ℕ) (l : Lease) → holding' w ≡ some l → s.holding w ≡ some l)
      → IsSafe worker_id (record { tables = record s.tables { db = db' }; holding = holding' })
  good-IsSafe s db' holding' safe good kept fewer = record {
    locked = other-IsLocked s.tables db' safe.locked good kept;
    fenced = λ t l e.
        Fences-Unclaimed (worker_id t) l (get_job l.job.id s.tables.db) (get_job l.job.id db')
          (good.unclaimed l.job.id) (safe.fenced t l (fewer t l e));
  }

  spared-IsSafe :
      (s : State) (db' : Db) (holding' : ℕ → Option Lease)
      → IsSafe worker_id s
      → Spares s.tables.db db'
      → ((w : ℕ) (l : Lease) → holding' w ≡ some l → s.holding w ≡ some l)
      → IsSafe worker_id (record { tables = record s.tables { db = db' }; holding = holding' })
  spared-IsSafe s db' holding' safe spares fewer =
      good-IsSafe s db' holding' safe spares.good (Rests-kept s db' safe.locked spares.rests) fewer

  -- What a claim's second statement does, and the lease that its worker takes.
  write-IsClaim :
      (s : State) (started_at : ℕ) (c : Claim)
      → IsSafe worker_id s
      → find (of_row c.row.id) s.tables.claims ≡ some c
      → IsClaim c.worker started_at s.tables.db
          (claim_row c.started c.worker s.tables.db (some c.row))
  write-IsClaim s started_at c safe e =
      let db = s.tables.db in
      let row = some (lock c.started c.worker c.row) in
      let found =
        locked_rows c.started c.worker db c.row (safe.locked.keeps c.row.id c e) c.row.id
        ∙ ground arith in
      subst (IsClaim c.worker started_at db) (sym (written-row s.tables c safe.locked e))
        (locking-IsClaim c.started started_at c.worker db c.row row safe.locked.valid found)

  handed_out-IsSafe :
      (s : State) (started_at t : ℕ) (c : Claim)
      → IsNaming worker_id
      → IsSafe worker_id s
      → find (of_row c.row.id) s.tables.claims ≡ some c
      → c.worker ≡ worker_id t
      → IsSafe worker_id (handed_out started_at t s c)
  handed_out-IsSafe s started_at t c naming safe e named =
      let taken = write-IsClaim s started_at c safe e in
      let same = written-row s.tables c safe.locked e in
      record {
        locked = rw same (write-IsLocked s.tables c safe.locked e);
        fenced = λ v l h. elim (Bool-cases (t == v)) [
          | inl mine ↦
              let me : t ≡ v = ground arith in
              subst (λ u. Fences u l (get_job l.job.id (written s.tables c).db))
                (named ∙ ap worker_id me) (taken.mine l (rw mine at h))
          | inr other ↦
              let apart : (c.worker == worker_id v) ≡ false =
                rw named (named_apart worker_id t v naming other) in
              Fences-others c.worker (worker_id v) l (get_job l.job.id s.tables.db) _ apart
                (taken.others l.job.id) (safe.fenced v l (rw other at h))
        ];
      }

-- What a step does to each job.
abbrev pub StepEvolves : State → State → Type 0
StepEvolves s t = (k : ℕ) → Evolves (get_job k s.tables.db) (get_job k t.tables.db)

module _ (text : Exception → String) (cron : Cron) (worker_id : ℕ → ℕ) where
  -- A transaction commits that claims nothing.
  spared :
      (s : State) (db' : Db)
      → IsSafe worker_id s
      → Spares s.tables.db db'
      → IsSafe worker_id (with_db s db') × StepEvolves s (with_db s db')
  spared s db' safe spares =
      (spared-IsSafe worker_id s db' s.holding safe spares (λ w l h. h), spares.good.evolves)

  kept :
      (s : State) (db' : Db)
      → IsSafe worker_id s
      → IsGood s.tables.db db'
      → ((k : ℕ) → is_locked s.tables.claims k ≡ true → get_job k db' ≡ get_job k s.tables.db)
      → IsSafe worker_id (with_db s db') × StepEvolves s (with_db s db')
  kept s db' safe good stays =
      (good-IsSafe worker_id s db' s.holding safe good stays (λ w l h. h), good.evolves)

  -- The claims change, and no row does.
  reclaimed :
      (s : State) (claims : List Claim)
      → IsSafe worker_id s
      → IsLocked (record s.tables { claims = claims })
      → IsSafe worker_id (with_claims s claims) × StepEvolves s (with_claims s claims)
  reclaimed s claims safe inv =
      (record { locked = inv; fenced = safe.fenced }, λ k. Evolves-refl (get_job k s.tables.db))

  -- A step from a safe state leads to a safe state, and takes each job by the state machine.
  pub Step-IsSafe :
      {s t : State}
      → IsNaming worker_id
      → Step text cron worker_id s t
      → IsSafe worker_id s
      → IsSafe worker_id t × StepEvolves s t
  Step-IsSafe naming (insert s now job_id key fingerprint request max_retries timeout db' e) safe =
      let row = new_row now job_id key fingerprint request max_retries timeout in
      spared s db' safe (insert_job-Spares row s.tables.db db' (ground arith) safe.locked.valid e)
  Step-IsSafe naming (batch s now uuid requests max_retries timeout) safe =
      spared s _ safe (
        create_jobs_batch-Spares now uuid requests max_retries timeout s.tables.db
          safe.locked.valid)
  Step-IsSafe naming (materialize s locked now uuid max_rows) safe =
      spared s _ safe (
        materialize_due_schedules-Spares cron locked now uuid max_rows s.tables.db
          safe.locked.valid)
  Step-IsSafe naming (cancel s now job_id free) safe =
      kept s _ safe (cancel_job-IsGood now job_id s.tables.db safe.locked.valid)
        (cancel_job-keeps now job_id s.tables free)
  Step-IsSafe naming (drain s now free) safe =
      kept s _ safe (drain_queue-IsGood now s.tables.db safe.locked.valid)
        (λ k held. absurd (let none_held = free k in cc))
  Step-IsSafe naming (recover s held now grace) safe =
      spared s _ safe (recover_stale_jobs-Spares _ now grace s.tables.db safe.locked.valid)
  Step-IsSafe naming (switch s now k next_run_at enabled) safe = spared s _ safe (
      quiet-Spares s.tables.db _ (write_enabled-IsQuiet now k next_run_at enabled s.tables.db)
        safe.locked.valid)
  Step-IsSafe naming (aside s db' a) safe =
      spared s db' safe (quiet-Spares s.tables.db db' (Aside-IsQuiet cron a) safe.locked.valid)
  Step-IsSafe naming (choose s held now t row idle e) safe =
      reclaimed s _ safe (choose-IsLocked s.tables held now (worker_id t) row safe.locked e)
  Step-IsSafe naming (write s started_at t c e named) safe = (
    handed_out-IsSafe worker_id s started_at t c naming safe e named,
    (write-IsClaim worker_id s started_at c safe e).evolves,
  )
  Step-IsSafe naming (abort s k) safe = reclaimed s _ safe (abort-IsLocked s.tables k safe.locked)
  Step-IsSafe naming (finish s config now t l outcome held) safe =
      let spares =
        ended-Spares text config now (worker_id t) l s.tables.db outcome safe.locked.valid
          (safe.fenced t l held) in
      (spared-IsSafe worker_id s _ _ safe spares (dropped s.holding t), spares.good.evolves)
  Step-IsSafe naming (crash s t) safe = (
    record { locked = safe.locked; fenced = λ v l e. safe.fenced v l (dropped s.holding t v l e) },
    λ k. Evolves-refl (get_job k s.tables.db),
  )
