-- ===== src/Worker/Pool.antt =====
-- The threads of `WorkerPool` in app/worker.py: start, stop, reconcile and
-- `_ensure_threads_locked`, each under the pool's lock. What the threads do is in Worker.
pub mod Slots
use digitalocean.Base.{
  ℕ, zero, suc, ◌+◌, ◌-◌, Bool, true, false, Option, none, some, List, [], ◌∷◌, ◌++◌, length, ltb,
  if◌then◌else◌,
}
use digitalocean.Models.{RuntimeConfig}
use digitalocean.Sql.{select}
use digitalocean.Config.{store_replace}

-- A thread, by its slot (the end of its `worker_id`), and whether it still runs.
pub record Thread : Type 0 where
  pub slot : ℕ
  pub is_alive : Bool

pub record Pool : Type 0 where
  pub config : RuntimeConfig
  pub threads : List Thread
  pub is_started : Bool
  pub is_stopping : Bool

abbrev pub alive : List Thread → List Thread
alive threads = select (λ (t : Thread). t.is_alive) threads

-- The threads of n slots from a first one.
unfoldable pub new_threads : (n first : ℕ) → List Thread
new_threads zero first = []
new_threads (suc n) first = record { slot = first; is_alive = true } ∷ new_threads n (first + 1)

-- `for index in range(current + 1, desired + 1)`
unfoldable pub ensure_threads : (desired : ℕ) → List Thread → List Thread
ensure_threads desired threads =
    let living = alive threads in
    let current = length living in living ++ new_threads (desired - current) (current + 1)

abbrev pub with_threads : Pool → Pool
with_threads pool = record pool {
  threads = ensure_threads pool.config.worker_concurrency pool.threads;
}

-- `shared` is the configuration in the database. The clear of the stop event comes first here:
-- nothing reads it in between.
unfoldable pub start : (shared : RuntimeConfig) → Pool → Pool
start shared pool =
    if pool.is_started
    then pool
    else with_threads (record pool {
      config = (store_replace pool.config shared).0;
      is_started = true;
      is_stopping = false;
    })

unfoldable pub reconcile : Pool → Pool
reconcile pool = if pool.is_started then with_threads pool else pool

-- `joined` says which threads have ended when the joins have returned or timed out.
unfoldable pub stop : (joined : List Thread → List Thread) → Pool → Pool
stop joined pool = record pool {
  threads = alive (joined pool.threads);
  is_started = false;
  is_stopping = true;
}

-- The loop of a thread ends before its next round.
abbrev pub leaves : Pool → (slot : ℕ) → Bool
leaves pool slot = if pool.is_stopping then true else (ltb pool.config.worker_concurrency slot)
