-- ===== src/Repository/Registry.antt =====
-- `heartbeat_worker` and `worker_runtime_status` of app/repository.py.
pub mod Fresh
use digitalocean.Base.{
  ℕ, ◌+◌, ◌-◌, Bool, List, [], ◌∷◌, ◌++◌, ◌==◌, leb, length, is_some, if◌then◌else◌,
}
use digitalocean.Models.{Instance, WorkerStatus}
use digitalocean.Sql.{select, find, update}
use digitalocean.Repository.Store.{Db}

abbrev pub is_instance : ℕ → Instance → Bool
is_instance instance_id i = i.instance_id == instance_id

-- The columns that a conflict sets.
abbrev pub refresh : Instance → Instance → Instance
refresh row i = record i {
  active_threads = row.active_threads;
  busy_threads = row.busy_threads;
  last_seen_at = row.last_seen_at;
}

-- `INSERT ... ON CONFLICT(instance_id) DO UPDATE`
unfoldable pub upsert : Instance → List Instance → List Instance
upsert row rows =
    if is_some (find (is_instance row.instance_id) rows)
    then update (is_instance row.instance_id) (refresh row) rows
    else rows ++ (row ∷ [])

unfoldable pub heartbeat_worker : (now instance_id active_threads busy_threads : ℕ) → Db → Db
heartbeat_worker now instance_id active_threads busy_threads db =
    let row : Instance = record {
      instance_id = instance_id;
      active_threads = active_threads;
      busy_threads = busy_threads;
      last_seen_at = now;
    } in
    record db { worker_instances = upsert row db.worker_instances }

-- `COALESCE(SUM(f), 0)`
abbrev pub sum_of : (Instance → ℕ) → List Instance → ℕ
sum_of f [] = 0
sum_of f (i ∷ rows) = f i + sum_of f rows

-- `WHERE last_seen_at >= cutoff`
abbrev pub is_fresh : ℕ → Instance → Bool
is_fresh cutoff i = leb cutoff i.last_seen_at

abbrev pub totals : List Instance → WorkerStatus
totals rows = record {
  instances = length rows;
  active_threads = sum_of (λ i. i.active_threads) rows;
  busy_threads = sum_of (λ i. i.busy_threads) rows;
}

unfoldable pub worker_runtime_status : (now max_age : ℕ) → Db → WorkerStatus
worker_runtime_status now max_age db =
    totals (select (is_fresh (now - max_age)) db.worker_instances)
