-- ===== src/Tests/Postgres.antt =====
-- The PostgreSQL repository on the sample tables, with two workers that claim at once.
use digitalocean.Base.{
  ℕ, ◌≡◌, ◌⊎◌, inl, inr, refl, sym, subst, ◌∙◌, String, Bool, false, ◌==◌, some, List, [], ◌∷◌,
  arith,
}
use digitalocean.Models.{Job, Json}
use digitalocean.Repository.Store.{Db, ok, get_job, insert_job}
use digitalocean.Repository.Schedules.{Cron}
use digitalocean.Repository.Schedules.Materialize.{occurrence}
use digitalocean.Repository.Claim as SqliteClaim
use digitalocean.Repository.Finish as SqliteFinish
use digitalocean.Repository.Recover as SqliteRecover
use digitalocean.Repository.Schedules as SqliteSchedules
use digitalocean.Repository.Claim.{lock}
use digitalocean.Postgres.Claim.{next_free, claim_row, claim_next_job}
use digitalocean.Postgres.Claim.Agree.{SameJobs, Untied}
use digitalocean.Repository.Claim.Order.{due_job}
use digitalocean.Repository.Claim.Rank.{Outranks}
use digitalocean.Repository.Invariant.{IsValid, Agrees, has_attempt, has_dead_letter}
use digitalocean.Postgres.Claim.Skips.{FreeClaims, skips_locked}
use digitalocean.Postgres.Finish.{mark_succeeded, mark_failed_attempt}
use digitalocean.Postgres.Recover.{recover_stale_jobs}
use digitalocean.Postgres.Recover.Skips.{FreeRecovers, reap_skips_locked}
use digitalocean.Postgres.Schedules.{set_schedule_enabled, insert_occurrence, materialize_row}
use digitalocean.Postgres.Schedules.Once.{Grows, occurrence-once}
use digitalocean.Postgres.Agree.{repositories_agree}
use digitalocean.Postgres.Locks.Others.{recover_stale_jobs-Step}
use digitalocean.Postgres.Locks.{
  is_locked, changed, Step, State, Event, handed, choose, write, Runs, stop, quiet, seen, Spec,
  written,
}
use digitalocean.Postgres.Locks.Refines.{IsLocked, claims_refine}
use digitalocean.Tests.Samples.{sample_db, sample_db-IsValid, sample_job, held_job}
use digitalocean.Tests.Recurring.{every_minute, schedule, due_db, materialized_db}

-- Another transaction holds job 2.
skips_locked_example :
    FreeClaims (λ k. k == 2) 30 9 sample_db (claim_next_job (λ k. k == 2) 30 9 sample_db)
skips_locked_example = skips_locked (λ k. k == 2) 30 9 sample_db sample_db-IsValid

reap_skips_locked_example :
    FreeRecovers (λ k. k == 1) 100 15 sample_db (recover_stale_jobs (λ k. k == 1) 100 15 sample_db)
reap_skips_locked_example = reap_skips_locked (λ k. k == 1) 100 15 sample_db sample_db-IsValid

materialized : materialize_row every_minute 61 1 schedule due_db ≡ ok (materialized_db, 1)
unfolding materialize_row insert_occurrence insert_job
materialized = refl

occurrence-once_example :
    Grows (occurrence 61 1 schedule) due_db materialized_db 1
    × ((db2 : Db) × (materialize_row every_minute 62 1 schedule materialized_db ≡ ok (db2, 0))
        × (db2.jobs ≡ materialized_db.jobs))
occurrence-once_example =
    occurrence-once every_minute schedule 61 62 1 1 1 due_db materialized_db materialized

-- The same rows, stored in another order.
abbrev turned_db : Db
turned_db = record sample_db { jobs = sample_job 2 4 20 ∷ sample_job 1 0 5 ∷ held_job ∷ [] }

turned-SameJobs : SameJobs sample_db turned_db
unfolding get_job
turned-SameJobs k = ground arith

turned_db-IsValid : IsValid turned_db
unfolding has_attempt has_dead_letter
turned_db-IsValid = record {
  keys = (refl, (refl, (refl, tt)));
  agrees = λ k.
      subst (λ o. Agrees k o (λ n. has_attempt k n sample_db) (has_dead_letter k sample_db))
        (sym (turned-SameJobs k)) (sample_db-IsValid.agrees k);
}

sample_due :
    (k : ℕ) (a : Job)
    → due_job 100 (get_job k sample_db) ≡ some a
    → (sample_job 1 0 5 ≡ a) ⊎ (sample_job 2 4 20 ≡ a)
unfolding get_job
sample_due k a e = ground arith

-- Both jobs are due at time 100, and their priorities differ.
sample-Untied : Untied 100 sample_db
sample-Untied i k a b e f = untie a b (sample_due i a e) (sample_due k b f)
  where
    untie :
        (a b : Job)
        → (sample_job 1 0 5 ≡ a) ⊎ (sample_job 2 4 20 ≡ a)
        → (sample_job 1 0 5 ≡ b) ⊎ (sample_job 2 4 20 ≡ b)
        → Outranks a b
        → Outranks b a
        → a ≡ b
    untie a b (inl x) (inl y) up down = sym x ∙ y
    untie a b (inl x) (inr y) up down = absurd (
        let over : Outranks (sample_job 1 0 5) (sample_job 2 4 20) =
          subst (Outranks (sample_job 1 0 5)) (sym y) (subst (λ z. Outranks z b) (sym x) up) in
        ground arith)
    untie a b (inr x) (inl y) up down = absurd (
        let over : Outranks (sample_job 1 0 5) (sample_job 2 4 20) =
          subst (Outranks (sample_job 1 0 5)) (sym x) (subst (λ z. Outranks z a) (sym y) down) in
        ground arith)
    untie a b (inr x) (inr y) up down = sym x ∙ y

repositories_agree_example :
    ((worker_id : ℕ)
      → let claimed = claim_next_job (λ k. false) 100 worker_id turned_db in
        let sqlite = SqliteClaim.claim_next_job 100 worker_id sample_db in
        (claimed.1 ≡ sqlite.1) × SameJobs sqlite.0 claimed.0)
    × ((job_id worker_id attempt_no started_at : ℕ) (result : Json)
        → mark_succeeded 100 job_id worker_id attempt_no started_at result sample_db
          ≡ SqliteFinish.mark_succeeded 100 job_id worker_id attempt_no started_at result sample_db)
    × ((job : Job) (worker_id attempt_no started_at : ℕ) (error : String) (is_timeout : Bool)
          (backoff : ℕ)
        → mark_failed_attempt 100 job worker_id attempt_no started_at error is_timeout backoff
            sample_db
          ≡ SqliteFinish.mark_failed_attempt 100 job worker_id attempt_no started_at error
              is_timeout backoff sample_db)
    × ((lease_grace : ℕ)
        → recover_stale_jobs (λ k. false) 100 lease_grace sample_db
          ≡ SqliteRecover.recover_stale_jobs 100 lease_grace sample_db)
    × ((cron : Cron) (between : Db → Db) (schedule_id : ℕ) (enabled : Bool)
        → set_schedule_enabled cron between 100 schedule_id enabled sample_db
          ≡ SqliteSchedules.set_schedule_enabled cron between 100 schedule_id enabled sample_db)
repositories_agree_example =
    repositories_agree 100 sample_db turned_db sample_db-IsValid turned_db-IsValid turned-SameJobs
      sample-Untied

-- Worker 5 chooses job 2, worker 6 chooses job 1 before that is written, and writes first.
abbrev start : State
start = record { db = sample_db; claims = [] }

abbrev one_chose : State
one_chose = record start {
  claims = record { worker = 5; started = 30; row = sample_job 2 4 20 } ∷ [];
}

abbrev both_chose : State
both_chose = record start {
  claims =
      record { worker = 5; started = 30; row = sample_job 2 4 20 }
      ∷ record { worker = 6; started = 31; row = sample_job 1 0 5 }
      ∷ [];
}

abbrev one_wrote : State
one_wrote = written both_chose (record { worker = 6; started = 31; row = sample_job 1 0 5 })

abbrev both_wrote : State
both_wrote = written one_wrote (record { worker = 5; started = 30; row = sample_job 2 4 20 })

start-IsLocked : IsLocked start
start-IsLocked = record { valid = sample_db-IsValid; apart = tt; keeps = λ k c e. absurd cc }

abbrev events : List Event
events =
    handed 6 (some (lock 31 6 (sample_job 1 0 5)))
    ∷ handed 5 (some (lock 30 5 (sample_job 2 4 20)))
    ∷ []

two_claims : Runs start events both_wrote
unfolding next_free claim_row SqliteClaim.claims_before
two_claims = quiet {t = one_chose} (choose start (λ k. false) 30 5 (sample_job 2 4 20) refl) (
    quiet {t = both_chose} (choose one_chose (λ k. false) 31 6 (sample_job 1 0 5) refl) (
      seen {t = one_wrote}
        (write both_chose (record { worker = 6; started = 31; row = sample_job 1 0 5 }) refl)
        (seen {t = both_wrote}
          (write one_wrote (record { worker = 5; started = 30; row = sample_job 2 4 20 }) refl)
          (stop both_wrote))))

-- Between the choices and the writes, at time 100, the reaper ends the lease of job 3.
both_chose-Step : Step both_chose (some changed) (record both_chose {
  db = (recover_stale_jobs (is_locked both_chose.claims) 100 15 sample_db).0;
})
both_chose-Step = recover_stale_jobs-Step both_chose sample_db-IsValid 100 15

claims_refine_example : Spec start.db events both_wrote.db × IsLocked both_wrote
claims_refine_example = claims_refine start-IsLocked two_claims
