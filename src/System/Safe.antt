-- ===== src/System/Safe.antt =====
-- What holds in every state that the steps reach.
use digitalocean.Base.{
  ℕ, ◌≡◌, String, false, Option, none, some, List, ◌==◌, arith, Bool-cases, inl, inr, subst,
}
use native.Mathlib.Decide.{ℕ_discrete}
use digitalocean.Models.{Job, JobCreate, RuntimeConfig}
use digitalocean.Repository.Create.{new_row, create_jobs_batch}
use digitalocean.Repository.Schedules.Materialize.{materialize_due_schedules}
use digitalocean.Worker.{Outcome}
use digitalocean.Repository.Store.{Db, Exception, get_job, insert_job}
use digitalocean.Repository.Schedules.{Cron}
use digitalocean.Repository.Invariant.{IsValid}
use digitalocean.Repository.Invariant.Insert.{IsNew, insert_job-IsValid}
use digitalocean.Repository.Invariant.Create.{create_jobs_batch-IsValid}
use digitalocean.Repository.Invariant.Schedules.{materialize_due_schedules-IsValid}
use digitalocean.Repository.Invariant.Marks.{holder}
use digitalocean.System.{
  State, Lease, set_holding, claimed, finished, Step, insert, batch, materialize, cancel, drain,
  recover, switch, aside, claim, finish, crash,
}
use digitalocean.System.Evolve.{Evolves, Evolves-refl}
use digitalocean.System.Entered.{
  insert_job-Entered, create_jobs_batch-Entered, materialize_due_schedules-Entered,
}
use digitalocean.System.Steps.{
  Unclaimed, IsGood, IsGood-refl, Entered-IsGood, cancel_job-IsGood, drain_queue-IsGood,
  recover_stale_jobs-IsGood,
}
use digitalocean.System.Asides.{IsQuiet-IsGood, write_enabled-IsQuiet, Aside-IsQuiet}
use digitalocean.System.Commit.{Fences, finish_attempt-Spares}
use digitalocean.System.Claim.{OthersKeep, claim_next_job-IsClaim}

-- Consistent tables, and every thread's lease fences the row that it was taken from.
pub record IsSafe (worker_id : ℕ → ℕ) (s : State) : Type 0 where
  pub valid : IsValid s.db
  pub fenced :
      (t : ℕ) (l : Lease) → s.holding t ≡ some l → Fences (worker_id t) l (get_job l.job.id s.db)

-- A lease survives every transaction that claims nothing.
pub Fences-Unclaimed :
    (w : ℕ) (l : Lease) (o o' : Option Job) → Unclaimed o o' → Fences w l o → Fences w l o'
Fences-Unclaimed w l o none same f = tt
Fences-Unclaimed w l o (some j') same f = elim (Bool-cases (holder w j')) [
  | inl h ↦ subst (Fences w l) (same (ground arith)) f
  | inr lost ↦ inl lost
]

pub Fences-others :
    (v w : ℕ) (l : Lease) (o o' : Option Job)
    → (v == w) ≡ false
    → OthersKeep v o o'
    → Fences w l o
    → Fences w l o'
Fences-others v w l o none ne same f = tt
Fences-others v w l o (some j') ne same f = elim (Bool-cases (holder w j')) [
  | inl h ↦ subst (Fences w l) (same w ne h) f
  | inr lost ↦ inl lost
]

-- The leases after the one of w was dropped.
pub dropped :
    (holding : ℕ → Option Lease) (w v : ℕ) (l : Lease)
    → set_holding w none holding v ≡ some l
    → holding v ≡ some l
dropped holding w v l e = ground arith

-- What a step does to each job.
abbrev pub StepEvolves : State → State → Type 0
StepEvolves s t = (k : ℕ) → Evolves (get_job k s.db) (get_job k t.db)

-- Threads with different names.
abbrev pub IsNaming : (ℕ → ℕ) → Type 0
IsNaming worker_id = (t u : ℕ) → worker_id t ≡ worker_id u → t ≡ u

pub named_apart :
    (worker_id : ℕ → ℕ) (t u : ℕ)
    → IsNaming worker_id
    → (t == u) ≡ false
    → (worker_id t == worker_id u) ≡ false
named_apart worker_id t u naming other = elim (ℕ_discrete (worker_id t) (worker_id u)) [
  | yes e ↦ absurd (let same = naming t u e in ground arith)
  | no ne ↦ ground arith
]

module _ (text : Exception → String) (cron : Cron) (worker_id : ℕ → ℕ) where
  good-IsSafe :
      (s : State) (db' : Db) (holding' : ℕ → Option Lease)
      → IsSafe worker_id s
      → IsGood s.db db'
      → ((t : ℕ) (l : Lease) → holding' t ≡ some l → s.holding t ≡ some l)
      → IsSafe worker_id (record { db = db'; holding = holding' })
  good-IsSafe s db' holding' safe good fewer = record {
    valid = good.valid;
    fenced = λ t l e.
        Fences-Unclaimed (worker_id t) l (get_job l.job.id s.db) (get_job l.job.id db')
          (good.unclaimed l.job.id) (safe.fenced t l (fewer t l e));
  }

  claimed-IsSafe :
      (s : State) (now started_at t : ℕ)
      → IsNaming worker_id
      → IsSafe worker_id s
      → IsSafe worker_id (claimed now started_at t (worker_id t) s)
  claimed-IsSafe s now started_at t naming safe =
      let c = claim_next_job-IsClaim now started_at (worker_id t) s.db safe.valid in
      record {
        valid = c.valid;
        fenced = λ v l e. elim (Bool-cases (t == v)) [
          | inl same ↦
              let me : t ≡ v = ground arith in
              subst
                (λ u.
                  Fences (worker_id u) l
                    (get_job l.job.id (claimed now started_at t (worker_id t) s).db))
                me (c.mine l (rw same at e))
          | inr other ↦
              Fences-others (worker_id t) (worker_id v) l (get_job l.job.id s.db) _
                (named_apart worker_id t v naming other) (c.others l.job.id)
                (safe.fenced v l (rw other at e))
        ];
      }

  insert-IsGood :
      (s : State) (row : Job) (db' : Db)
      → insert_job row s.db ≡ some db'
      → IsNew row
      → IsSafe worker_id s
      → IsGood s.db db'
  insert-IsGood s row db' e new safe =
      Entered-IsGood s.db db' (insert_job-IsValid row s.db new safe.valid e)
        (insert_job-Entered row s.db new e)

  batch-IsGood :
      (s : State) (now : ℕ) (uuid : ℕ → ℕ) (requests : List JobCreate) (max_retries timeout : ℕ)
      → IsSafe worker_id s
      → IsGood s.db (create_jobs_batch now uuid requests max_retries timeout s.db).0
  batch-IsGood s now uuid requests max_retries timeout safe =
      Entered-IsGood s.db _
        (create_jobs_batch-IsValid now uuid requests max_retries timeout s.db safe.valid)
        (create_jobs_batch-Entered now uuid requests max_retries timeout s.db)

  materialize-IsGood :
      (s : State) (now : ℕ) (uuid : ℕ → ℕ) (max_rows : ℕ)
      → IsSafe worker_id s
      → IsGood s.db (materialize_due_schedules cron now uuid max_rows s.db).0
  materialize-IsGood s now uuid max_rows safe =
      Entered-IsGood s.db _
        (materialize_due_schedules-IsValid cron now uuid max_rows s.db safe.valid)
        (materialize_due_schedules-Entered cron now uuid max_rows s.db)

  finish-IsGood :
      (s : State) (config : RuntimeConfig) (now t : ℕ) (l : Lease) (outcome : Outcome)
      → s.holding t ≡ some l
      → IsSafe worker_id s
      → IsGood s.db (finished text config now t (worker_id t) l outcome s).db
  finish-IsGood s config now t l outcome held safe =
      (finish_attempt-Spares text config now (worker_id t) l s.db safe.valid outcome
        (safe.fenced t l held)).good

  -- Each transaction keeps the state safe.
  pub Step-IsSafe :
      {s t : State}
      → IsNaming worker_id
      → Step text cron worker_id s t
      → IsSafe worker_id s
      → IsSafe worker_id t
  Step-IsSafe naming (insert s now job_id key fingerprint request max_retries timeout db' e) safe =
      good-IsSafe s db' s.holding safe
        (insert-IsGood s (new_row now job_id key fingerprint request max_retries timeout) db' e
          (ground arith) safe)
        (λ w l h. h)
  Step-IsSafe naming (batch s now uuid requests max_retries timeout) safe =
      good-IsSafe s _ s.holding safe (batch-IsGood s now uuid requests max_retries timeout safe)
        (λ w l h. h)
  Step-IsSafe naming (materialize s now uuid max_rows) safe =
      good-IsSafe s _ s.holding safe (materialize-IsGood s now uuid max_rows safe) (λ w l h. h)
  Step-IsSafe naming (cancel s now job_id) safe =
      good-IsSafe s _ s.holding safe (cancel_job-IsGood now job_id s.db safe.valid) (λ w l h. h)
  Step-IsSafe naming (drain s now) safe =
      good-IsSafe s _ s.holding safe (drain_queue-IsGood now s.db safe.valid) (λ w l h. h)
  Step-IsSafe naming (recover s now grace) safe =
      good-IsSafe s _ s.holding safe (recover_stale_jobs-IsGood now grace s.db safe.valid)
        (λ w l h. h)
  Step-IsSafe naming (switch s now k next_run_at enabled) safe =
      good-IsSafe s _ s.holding safe
        (IsQuiet-IsGood s.db _ (write_enabled-IsQuiet now k next_run_at enabled s.db) safe.valid)
        (λ w l h. h)
  Step-IsSafe naming (aside s db' a) safe =
      good-IsSafe s db' s.holding safe (IsQuiet-IsGood s.db db' (Aside-IsQuiet cron a) safe.valid)
        (λ w l h. h)
  Step-IsSafe naming (claim s now started_at t idle) safe =
      claimed-IsSafe s now started_at t naming safe
  Step-IsSafe naming (finish s config now w l outcome held) safe =
      good-IsSafe s _ _ safe (finish-IsGood s config now w l outcome held safe)
        (dropped s.holding w)
  Step-IsSafe naming (crash s w) safe =
      good-IsSafe s s.db _ safe (IsGood-refl s.db safe.valid) (dropped s.holding w)

  -- A step from a safe state leaves each job as it is, or moves it by one transition of `allows`
  -- (queued to running or cancelled, running to succeeded, and running to queued or dead_lettered
  -- by whether the attempts used are within max_retries, each end of a running job counting one
  -- attempt) with its identity and policy unchanged; no job disappears, and a job that appears is
  -- queued without attempts.
  pub Step-evolves :
      {s t : State} → Step text cron worker_id s t → IsSafe worker_id s → StepEvolves s t
  Step-evolves (insert s now job_id key fingerprint request max_retries timeout db' e) safe =
      (insert-IsGood s (new_row now job_id key fingerprint request max_retries timeout) db' e
        (ground arith) safe).evolves
  Step-evolves (batch s now uuid requests max_retries timeout) safe =
      (batch-IsGood s now uuid requests max_retries timeout safe).evolves
  Step-evolves (materialize s now uuid max_rows) safe =
      (materialize-IsGood s now uuid max_rows safe).evolves
  Step-evolves (cancel s now job_id) safe = (cancel_job-IsGood now job_id s.db safe.valid).evolves
  Step-evolves (drain s now) safe = (drain_queue-IsGood now s.db safe.valid).evolves
  Step-evolves (recover s now grace) safe =
      (recover_stale_jobs-IsGood now grace s.db safe.valid).evolves
  Step-evolves (switch s now k next_run_at enabled) safe =
      (IsQuiet-IsGood s.db _ (write_enabled-IsQuiet now k next_run_at enabled s.db)
        safe.valid).evolves
  Step-evolves (aside s db' a) safe =
      (IsQuiet-IsGood s.db db' (Aside-IsQuiet cron a) safe.valid).evolves
  Step-evolves (claim s now started_at t idle) safe =
      (claim_next_job-IsClaim now started_at (worker_id t) s.db safe.valid).evolves
  Step-evolves (finish s config now w l outcome held) safe =
      (finish-IsGood s config now w l outcome held safe).evolves
  Step-evolves (crash s w) safe = λ k. Evolves-refl (get_job k s.db)
