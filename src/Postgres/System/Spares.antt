-- ===== src/Postgres/System/Spares.antt =====
-- The transactions on PostgreSQL that leave the queued rows as they are.
use mathlib.Core.Option
use digitalocean.Base.{
  ℕ, ◌≡◌, refl, String, Bool, ◌&&◌, Option, some, List, arith, inl, inr, ◌∙◌, subst, sym,
}
use digitalocean.Models.{Job, JobCreate, RuntimeConfig}
use digitalocean.Repository.Store.{Db, Exception, Result, get_job, insert_job}
use digitalocean.Repository.Create.{create_jobs_batch}
use digitalocean.Repository.Recover.{is_expired}
use digitalocean.Repository.Schedules.{Cron}
use digitalocean.Repository.Invariant.{IsValid}
use digitalocean.Repository.Invariant.Insert.{IsNew, insert_job-IsValid}
use digitalocean.Repository.Invariant.Create.{create_jobs_batch-IsValid}
use digitalocean.Repository.Invariant.Recover.{abandon}
use digitalocean.Worker.{Outcome}
use digitalocean.System.{Lease}
use digitalocean.System.Entered.{AllEntered, insert_job-Entered, create_jobs_batch-Entered}
use digitalocean.System.Steps.{Entered-IsGood, map-IsGood, abandon-Moves, abandon_stops}
use digitalocean.System.Asides.{IsQuiet, IsQuiet-get_job, IsQuiet-IsGood}
use digitalocean.System.Commit.{Fences, Rests, Spares, finish_attempt-Spares}
use digitalocean.Postgres.Recover.{is_seen, recover_stale_jobs}
use digitalocean.Postgres.Recover.Skips.{free_row, reap_skips_locked}
use digitalocean.Postgres.Schedules.{write_enabled, materialize_due_schedules}
use digitalocean.Postgres.Schedules.Adds.{materialize_due_schedules-Grown}
use digitalocean.Postgres.System.{finish_attempt}
use digitalocean.Postgres.System.Attempt.{finish_attempt-agrees}

entered-Spares : (db db' : Db) → IsValid db' → AllEntered db db' → Spares db db'
entered-Spares db db' v entered = record {
  good = Entered-IsGood db db' v entered;
  rests = λ k j found waits. elim (entered k) [
    | inl same ↦ same ∙ found
    | inr (gone, new) ↦ absurd (cc)
  ];
}

-- Only a running row is recovered.
free_row-Rests :
    (locked : ℕ → Bool) (now grace : ℕ) (o : Option Job)
    → Rests o (Option.map (free_row locked now grace) o)
free_row-Rests locked now grace o j e waits = rw (e, waits) refl

pub recover_stale_jobs-Spares :
    (locked : ℕ → Bool) (now grace : ℕ) (db : Db)
    → IsValid db
    → Spares db (recover_stale_jobs locked now grace db).0
recover_stale_jobs-Spares locked now grace db v =
    let (answer, valid, all) = reap_skips_locked locked now grace db v in
    record {
      good =
          map-IsGood (λ j. is_seen locked j && is_expired now grace j) (abandon now)
            (λ j h. abandon-Moves now j (ground arith)) (λ j h. abandon_stops now j) db _ valid all;
      rests =
          λ k j found waits. all k ∙ free_row-Rests locked now grace (get_job k db) j found waits;
    }

pub insert_job-Spares :
    (row : Job) (db db' : Db)
    → IsNew row
    → IsValid db
    → insert_job row db ≡ some db'
    → Spares db db'
insert_job-Spares row db db' new v e =
    entered-Spares db db' (insert_job-IsValid row db new v e) (insert_job-Entered row db new e)

pub create_jobs_batch-Spares :
    (now : ℕ) (uuid : ℕ → ℕ) (requests : List JobCreate) (max_retries timeout : ℕ) (db : Db)
    → IsValid db
    → Spares db (create_jobs_batch now uuid requests max_retries timeout db).0
create_jobs_batch-Spares now uuid requests max_retries timeout db v =
    entered-Spares db _ (create_jobs_batch-IsValid now uuid requests max_retries timeout db v)
      (create_jobs_batch-Entered now uuid requests max_retries timeout db)

pub materialize_due_schedules-Spares :
    (cron : Cron) (locked : ℕ → Bool) (now : ℕ) (uuid : ℕ → ℕ) (max_rows : ℕ) (db : Db)
    → IsValid db
    → Spares db (materialize_due_schedules cron locked now uuid max_rows db).0
materialize_due_schedules-Spares cron locked now uuid max_rows db v =
    let grown = materialize_due_schedules-Grown cron locked now uuid max_rows db v in
    entered-Spares db _ grown.valid grown.entered

pub ended-Spares :
    (text : Exception → String) (config : RuntimeConfig) (now w : ℕ) (l : Lease) (db : Db)
    (outcome : Outcome)
    → IsValid db
    → Fences w l (get_job l.job.id db)
    → Spares db (finish_attempt text config now l.job w l.attempt_no l.started_at outcome db).0
ended-Spares text config now w l db outcome v fence =
    subst (λ (r : Db × Result (Option Job)). Spares db r.0)
      (sym (finish_attempt-agrees text config now l.job w l.attempt_no l.started_at outcome db v))
      (finish_attempt-Spares text config now w l db v outcome fence)

-- A transaction on the other tables.
pub quiet-Spares : (db db' : Db) → IsQuiet db db' → IsValid db → Spares db db'
quiet-Spares db db' q v = record {
  good = IsQuiet-IsGood db db' q v;
  rests = λ k j found waits. IsQuiet-get_job db db' q k ∙ found;
}

pub write_enabled-IsQuiet :
    (now k next_run_at : ℕ) (enabled : Bool) (db : Db)
    → IsQuiet db (write_enabled now k next_run_at enabled db).0
unfolding write_enabled
write_enabled-IsQuiet now k next_run_at enabled db = record {
  jobs = refl;
  job_attempts = refl;
  dead_letters = refl;
}
