-- ===== src/System/Ends.antt =====
-- A job makes finitely many transitions.
use digitalocean.Base.{ℕ, ◌+◌, ◌*◌, ◌≤◌, ◌≡◌, String, some}
use digitalocean.Models.{Job}
use digitalocean.Repository.Store.{Exception, get_job}
use digitalocean.Repository.Schedules.{Cron}
use digitalocean.System.{State, Reach}
use digitalocean.System.Safe.{IsSafe, IsNaming}
use digitalocean.System.Trace.{Life, left, Trace-EndsSoon}
use digitalocean.System.Runs.{Reach-Trace}

module _ (text : Exception → String) (cron : Cron) (worker_id : ℕ → ℕ)
    (naming : IsNaming worker_id) where
  -- When different threads have different worker_ids, in a run of the steps from a safe state, the
  -- row that a job has at the end comes from its row at the start by at most 2 * max_retries + 3
  -- transitions, each of which uses up at least one of the transitions that the job has left: two
  -- for each attempt that its retries still allow, and one more while it is queued.
  pub transitions_bounded :
      {s t : State} (k : ℕ) (j : Job)
      → IsSafe worker_id s
      → Reach text cron worker_id s t
      → get_job k s.db ≡ some j
      → (n : ℕ) × (n ≤ 2 * j.max_retries + 3)
        × ((j' : Job) × (get_job k t.db ≡ some j') × Life j n j' × (n + left j' ≤ left j))
  transitions_bounded k j safe r e =
      Trace-EndsSoon k j (Reach-Trace text cron worker_id naming safe r) e
