-- ===== src/Tests/Interleaved.antt =====
-- Two workers and the reaper over PostgreSQL on the sample tables.
use digitalocean.Base.{ℕ, ◌≡◌, refl, false, true, none, some, [], ◌∷◌}
use digitalocean.Models.{Job, null}
use digitalocean.Repository.Store.{get_job}
use digitalocean.Repository.Claim.{claims_before}
use digitalocean.Repository.Invariant.{is_terminal}
use digitalocean.Worker.{returned}
use digitalocean.System.{Lease}
use digitalocean.System.Trace.{EndsSoon}
use digitalocean.Postgres.Claim.{next_free, claim_row}
use digitalocean.Postgres.Locks.{Claim}
use digitalocean.Postgres.System.{
  State, is_held, with_db, with_claims, handed_out, finished, Reach, here, next, choose, write,
  recover, finish,
}
use digitalocean.Postgres.Recover.{recover_stale_jobs}
use digitalocean.Postgres.System.Safe.{IsSafe}
use digitalocean.Postgres.System.Runs.{interleavings-IsSafe}
use digitalocean.Repository.Claim.{lock}
use digitalocean.Tests.Samples.{
  sample_db, sample_db-IsValid, sample_job, thread_name, thread_name-IsNaming,
}
use digitalocean.Tests.Lifecycle.{text, cron, config}

abbrev first : Claim
first = record { worker = 5; started = 30; row = sample_job 2 4 20 }

abbrev second : Claim
second = record { worker = 6; started = 31; row = sample_job 1 0 5 }

abbrev start : State
start = record { tables = record { db = sample_db; claims = [] }; holding = λ w. none }

-- Worker 5 chooses job 2 and worker 6 chooses job 1; worker 6 writes, the reaper runs, worker 5
-- writes, and worker 6 ends its attempt.
abbrev both_chose : State
both_chose = with_claims start (first ∷ second ∷ [])

abbrev one_wrote : State
one_wrote = handed_out 32 6 both_chose second

abbrev reaped : State
reaped =
    with_db one_wrote
      (recover_stale_jobs (is_held one_wrote (λ k. false)) 100 15 one_wrote.tables.db).0

abbrev both_wrote : State
both_wrote = handed_out 101 5 reaped first

abbrev lease : Lease
lease = record { job = lock 31 6 (sample_job 1 0 5); attempt_no = 1; started_at = 32 }

abbrev ended : State
ended = finished text config 102 6 6 lease (returned null) both_wrote

run : Reach text cron thread_name start ended
unfolding next_free claim_row claims_before
run =
    next {t = both_wrote}
      (next {t = reaped}
        (next {t = one_wrote}
          (next {t = both_chose}
            (next {t = with_claims start (first ∷ [])}
              (next here (choose start (λ k. false) 30 5 first.row refl refl))
              (choose (with_claims start (first ∷ [])) (λ k. false) 31 6 second.row refl refl))
            (write both_chose 32 6 second refl refl))
          (recover one_wrote (λ k. false) 100 15))
        (write reaped 101 5 first refl refl))
      (finish both_wrote config 102 6 lease (returned null) refl)

start-IsSafe : IsSafe thread_name start
start-IsSafe = record {
  locked = record { valid = sample_db-IsValid; apart = tt; keeps = λ k c e. absurd cc };
  fenced = λ w l e. absurd cc;
}

interleavings-IsSafe_example :
    IsSafe thread_name ended
    × ((k : ℕ) (j : Job)
        → get_job k sample_db ≡ some j
        → EndsSoon (get_job k ended.tables.db) j
          × (is_terminal j.status ≡ true → get_job k ended.tables.db ≡ some j))
interleavings-IsSafe_example =
    interleavings-IsSafe text cron thread_name thread_name-IsNaming start-IsSafe run
