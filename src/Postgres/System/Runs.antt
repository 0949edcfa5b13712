-- ===== src/Postgres/System/Runs.antt =====
-- What every run of the steps on PostgreSQL keeps.
use digitalocean.Base.{ℕ, ◌≡◌, String, true, some}
use digitalocean.Models.{Job}
use digitalocean.Repository.Store.{Exception, get_job}
use digitalocean.Repository.Schedules.{Cron}
use digitalocean.Repository.Invariant.{is_terminal}
use digitalocean.System.Safe.{IsNaming}
use digitalocean.System.Trace.{Trace, start, after, terminal-Trace, EndsSoon, Trace-EndsSoon}
use digitalocean.Postgres.System.{State, Reach, here, next}
use digitalocean.Postgres.System.Safe.{IsSafe, Step-IsSafe}

module _ (text : Exception → String) (cron : Cron) (worker_id : ℕ → ℕ)
    (naming : IsNaming worker_id) where
  pub Reach-Trace :
      {s t : State}
      → IsSafe worker_id s
      → Reach text cron worker_id s t
      → IsSafe worker_id t × Trace s.tables.db t.tables.db
  Reach-Trace safe here = (safe, start)
  Reach-Trace safe (next {t} {u} r step) =
      let (mid, trace) = Reach-Trace safe r in
      let (last, evolves) = Step-IsSafe text cron worker_id naming step mid in
      (last, after trace mid.locked.valid evolves)

  -- On PostgreSQL, when different threads have different worker_ids, from a safe state, in every
  -- state that is reached by any interleaving of the two statements of the claims of all threads,
  -- of rollbacks, of the ends of attempts, of the reaper, of the schedules, of the heartbeats and
  -- of the API, where no statement writes a row that a claim has locked and a drain waits for all
  -- claims, the tables are consistent, no two open claims hold the same row, their rows are due and
  -- stand as they were chosen, and every lease fences the row that it was taken from; and every job
  -- of the first state is there with a row that comes from its first one by at most 2 * max_retries
  -- + 3 transitions, and unchanged if its status was a terminal one.
  pub interleavings-IsSafe :
      {s t : State}
      → IsSafe worker_id s
      → Reach text cron worker_id s t
      → IsSafe worker_id t
        × ((k : ℕ) (j : Job)
            → get_job k s.tables.db ≡ some j
            → EndsSoon (get_job k t.tables.db) j
              × (is_terminal j.status ≡ true → get_job k t.tables.db ≡ some j))
  interleavings-IsSafe safe r =
      let (last, trace) = Reach-Trace safe r in
      (last, λ k j e. (Trace-EndsSoon k j trace e, λ ends. terminal-Trace k j trace e ends))
