-- ===== src/System/Runs.antt =====
-- What every run of the steps keeps.
use digitalocean.Base.{ℕ, ◌≡◌, String, true, some}
use digitalocean.Models.{Job}
use digitalocean.Repository.Store.{Exception, get_job}
use digitalocean.Repository.Schedules.{Cron}
use digitalocean.Repository.Invariant.{is_terminal}
use digitalocean.System.{State, Reach, here, next}
use digitalocean.System.Trace.{Trace, start, after, terminal-Trace}
use digitalocean.System.Safe.{IsSafe, IsNaming, Step-IsSafe, Step-evolves}

module _ (text : Exception → String) (cron : Cron) (worker_id : ℕ → ℕ)
    (naming : IsNaming worker_id) where
  -- When different threads have different worker_ids, every state that the steps of the API, of the
  -- starts of processes and of the worker threads reach from a safe state, in any interleaving, is
  -- safe: the tables of jobs, attempts and dead letters are consistent (IsValid), and for every
  -- lease that a thread holds, the row of its job is no longer held by the worker_id of the thread,
  -- or is missing, or the attempt number of the lease is one more than the attempts of the row and
  -- the retries are those of the row.
  pub Reach-IsSafe :
      {s t : State} → IsSafe worker_id s → Reach text cron worker_id s t → IsSafe worker_id t
  Reach-IsSafe safe here = safe
  Reach-IsSafe safe (next r step) =
      Step-IsSafe text cron worker_id naming step (Reach-IsSafe safe r)

  pub Reach-Trace :
      {s t : State} → IsSafe worker_id s → Reach text cron worker_id s t → Trace s.db t.db
  Reach-Trace safe here = start
  Reach-Trace safe (next {t} {u} r step) =
      let mid = Reach-IsSafe safe r in
      after (Reach-Trace safe r) mid.valid (Step-evolves text cron worker_id step mid)

  -- When different threads have different worker_ids, in a run of the steps from a safe state, a
  -- job whose status is succeeded, failed, dead_lettered or cancelled keeps its row unchanged.
  pub terminal_stays :
      {s t : State} (k : ℕ) (j : Job)
      → IsSafe worker_id s
      → Reach text cron worker_id s t
      → get_job k s.db ≡ some j
      → is_terminal j.status ≡ true
      → get_job k t.db ≡ some j
  terminal_stays k j safe r e ends = terminal-Trace k j (Reach-Trace safe r) e ends
