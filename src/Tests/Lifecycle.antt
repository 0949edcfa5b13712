-- ===== src/Tests/Lifecycle.antt =====
-- The system of workers on the sample tables.
use digitalocean.Base.{length, max, ℕ, ◌+◌, ◌≡◌, ◌≤◌, ◌*◌, min, refl, String, some, arith}
use digitalocean.Models.{Job, null, RuntimeConfig}
use digitalocean.Repository.Store.{Exception, ok, get_job, insert_attempt, replace_dead_letter}
use digitalocean.Repository.Finish.{mark_failed_attempt, bury}
use digitalocean.Repository.Schedules.{Cron}
use digitalocean.Repository.Cancel.{cancel_job}
use digitalocean.Worker.{
  Outcome, returned, raised, record_failure, finish_attempt, process_one, backoff_seconds,
}
use digitalocean.Worker.Pool.{alive, new_threads, ensure_threads}
use digitalocean.Worker.Pool.Slots.{ensure_threads_lem}
use digitalocean.Worker.Backoff.{backoff_seconds_doubles}
use digitalocean.System.{
  State, Reach, with_db, claimed, finished, here, next, claim, cancel, finish,
}
use digitalocean.System.Safe.{IsSafe, StepEvolves, Step-evolves}
use digitalocean.System.Runs.{Reach-IsSafe, terminal_stays}
use digitalocean.System.Left.{total_left}
use digitalocean.System.Drains.{Moment, GetsIdle, worker-GetsIdle}
use digitalocean.System.Trace.{Life, left}
use digitalocean.System.Ends.{transitions_bounded}
use digitalocean.System.Commit.{finish_attempt-fenced}
use digitalocean.System.Round.{Commits, Rounds, ended_job, finish_attempt-Commits, process_one_lem}
use digitalocean.Tests.Samples.{
  sample_db, sample_db-IsValid, sample_state, sample_state-IsSafe, thread_name,
  thread_name-IsNaming, held_job, held_lease,
}

-- Opens what the tests run.
program : Unit {0}
unfolding get_job finish_attempt record_failure mark_failed_attempt insert_attempt bury
    replace_dead_letter
program = tt

abbrev pub text : Exception → String
text e = "error"

abbrev pub cron : Cron
cron expression after = some (after + 60)

abbrev pub config : RuntimeConfig
config = record {
  default_max_retries = 3;
  default_timeout_seconds = 5000000;
  max_timeout_seconds = 60000000;
  worker_concurrency = 2;
  backoff_base_seconds = 250000;
  backoff_max_seconds = 30000000;
}

-- Worker 7 fails its last attempt, and the job that it held is cancelled too late.
abbrev failed_state : State
failed_state = finished text config 12 7 7 held_lease (raised "boom") sample_state

abbrev late_state : State
late_state = with_db failed_state (cancel_job 13 3 failed_state.db).0

run : Reach text cron thread_name sample_state late_state
run =
    next (next here (finish sample_state config 12 7 held_lease (raised "boom") refl))
      (cancel failed_state 13 3)

Reach-IsSafe_example : IsSafe thread_name late_state
Reach-IsSafe_example =
    Reach-IsSafe text cron thread_name thread_name-IsNaming sample_state-IsSafe run

abbrev dead_job : Job
dead_job = ended_job config 12 (raised "boom") held_job

failed_state-IsSafe : IsSafe thread_name failed_state
failed_state-IsSafe =
    Reach-IsSafe text cron thread_name thread_name-IsNaming sample_state-IsSafe
      (next here (finish sample_state config 12 7 held_lease (raised "boom") refl))

dead : get_job 3 failed_state.db ≡ some dead_job
unfolding program
dead = refl

terminal_stays_example : get_job 3 late_state.db ≡ some dead_job
terminal_stays_example =
    terminal_stays text cron thread_name thread_name-IsNaming 3 dead_job failed_state-IsSafe
      (next here (cancel failed_state 13 3)) dead refl

transitions_bounded_example :
    (n : ℕ) × (n ≤ 2 * 1 + 3)
    × ((j' : Job) × (get_job 3 late_state.db ≡ some j')
        × Life held_job n j'
        × (n + left j' ≤ left held_job))
unfolding get_job
transitions_bounded_example =
    transitions_bounded text cron thread_name thread_name-IsNaming 3 held_job sample_state-IsSafe
      run refl

Step-evolves_example : StepEvolves sample_state (claimed 10 11 9 9 sample_state)
Step-evolves_example =
    Step-evolves text cron thread_name (claim sample_state 10 11 9 refl) sample_state-IsSafe

-- Worker 9 claims job 1 at time 10, and its handler succeeds.
abbrev pub handler : Job → ℕ → Outcome
handler job attempt_no = returned null

process_one_lem_example :
    Rounds config handler 10 12 9 sample_db
      (process_one text config handler (λ db. db) 10 11 12 9 sample_db)
process_one_lem_example =
    process_one_lem text config handler (λ db. db) 10 11 12 9 sample_db sample_db-IsValid
      (λ db v. v) (λ db k j e h. e)

finish_attempt-Commits_example :
    Commits 3
      (ended_job config 12 (returned null) held_job)
      sample_db
      (finish_attempt text config 12 held_job 7 2 10 (returned null) sample_db)
unfolding get_job
finish_attempt-Commits_example =
    finish_attempt-Commits text config 12 7 10 sample_db held_job sample_db-IsValid refl refl
      (returned null)

-- Worker 8 never held job 3.
finish_attempt-fenced_example :
    finish_attempt text config 12 held_job 8 2 10 (raised "late") sample_db
    ≡ (sample_db, ok (get_job 3 sample_db))
unfolding get_job
finish_attempt-fenced_example =
    finish_attempt-fenced text config 12 8 held_lease sample_db sample_db-IsValid (raised "late")
      refl

-- A handler that always fails, at a round every minute.
abbrev failing : Job → ℕ → Outcome
failing job attempt_no = raised "boom"

abbrev every_minute : ℕ → Moment
every_minute i = record { claimed_at = 60 * i + 10; started_at = 60 * i + 11; now = 60 * i + 12 }

worker-GetsIdle_example :
    GetsIdle text config failing 9 (total_left sample_db) every_minute sample_db
worker-GetsIdle_example =
    worker-GetsIdle text config failing 9 every_minute sample_db sample_db-IsValid

backoff_of_seven :
    (backoff_seconds config 1 ≡ 250000)
    × (backoff_seconds config 9 ≡ min (2 * backoff_seconds config 8) 30000000)
    × (250000 ≤ backoff_seconds config 8)
    × (backoff_seconds config 8 ≤ 30000000)
backoff_of_seven = backoff_seconds_doubles config 7 (omega arith)

-- A pool of two threads that is resized to four.
ensure_threads_lem_example :
    (length (ensure_threads 4 (new_threads 2 1)) ≡ max (length (alive (new_threads 2 1))) 4)
    × (ensure_threads 4 (new_threads 2 1) ≡ new_threads 4 1)
ensure_threads_lem_example = ensure_threads_lem 4 2 (new_threads 2 1)
