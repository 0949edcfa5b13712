-- ===== src/Worker/Sync.antt =====
-- What the worker threads of app/worker.py do beside the jobs: `_maybe_sync_runtime_config`,
-- `_maybe_recover_stale_jobs` and `_maybe_materialize_schedules` when their gates are passed or
-- not, `resize`, and one turn of `_worker_loop`. The gates themselves are in Worker.Gate.
pub mod Adopts
pub mod Turns
use digitalocean.Base.{
  ℕ, String, Bool, true, false, not, ◌&&◌, Option, none, some, List, length, ◌==◌, ltb,
  if◌then◌else◌,
}
use digitalocean.Models.{Job, RuntimeConfig, RuntimeConfigPatch}
use digitalocean.Repository.Store.{Db, Exception, Result, ok, raise}
use digitalocean.Repository.Recover.{recover_stale_jobs}
use digitalocean.Repository.Registry.{heartbeat_worker}
use digitalocean.Repository.Schedules.{Cron}
use digitalocean.Repository.Schedules.Materialize.{materialize_due_schedules}
use digitalocean.Config.{get_runtime_config, view, store_patch, store_replace}
use digitalocean.Worker.{Outcome, process_one}
use digitalocean.Worker.Pool.{Pool, Thread, alive, reconcile, leaves}

-- `==` of two models compares their fields.
abbrev pub same_config : RuntimeConfig → RuntimeConfig → Bool
same_config a b =
    a.default_max_retries == b.default_max_retries
    && (a.default_timeout_seconds == b.default_timeout_seconds
        && (a.max_timeout_seconds == b.max_timeout_seconds
            && (a.worker_concurrency == b.worker_concurrency
                && (a.backoff_base_seconds == b.backoff_base_seconds
                    && a.backoff_max_seconds == b.backoff_max_seconds))))

-- The pool, the tables, and whether the time of the last run is written.
abbrev pub Synced : Type 0
Synced = Pool × (Db × Bool)

-- The end of the `try` block: the dead threads are dropped, and the heartbeat.
abbrev pub report : (now instance_id busy_workers : ℕ) → Pool → Db → Synced
report now instance_id busy_workers pool db =
    let threads = alive pool.threads in
    (
      record pool { threads = threads },
      (heartbeat_worker now instance_id (length threads) busy_workers db, true),
    )

-- From `config.replace` on, whose view may be refused.
abbrev pub adopt :
    (now instance_id busy_workers : ℕ)
    → (changed : Bool) → Option RuntimeConfig
    → Pool
    → Db
    → Synced
adopt now instance_id busy_workers changed none pool db = (pool, (db, false))
adopt now instance_id busy_workers changed (some config) pool db =
    report now instance_id busy_workers (if changed then reconcile pool else pool) db

-- The `try` block, by what the table and the view of the store answer; an exception is logged.
abbrev pub read_shared :
    (now instance_id busy_workers : ℕ)
    → Result RuntimeConfig
    → Option RuntimeConfig
    → Pool
    → Db
    → Synced
read_shared now instance_id busy_workers (raise e) current pool db = (pool, (db, false))
read_shared now instance_id busy_workers (ok shared) none pool db = (pool, (db, false))
read_shared now instance_id busy_workers (ok shared) (some current) pool db =
    let (config, answer) = store_replace pool.config shared in
    adopt now instance_id busy_workers (not (same_config shared current)) answer
      (record pool { config = config }) db

unfoldable pub sync_runtime_config : (now instance_id busy_workers : ℕ) → Pool → Db → Synced
sync_runtime_config now instance_id busy_workers pool db =
    read_shared now instance_id busy_workers (get_runtime_config db) (view pool.config) pool db

-- `opened` says whether the thread passes the gate.
abbrev pub maybe_sync_runtime_config :
    (opened : Bool) → (now instance_id busy_workers : ℕ) → Pool → Db → Synced
maybe_sync_runtime_config opened now instance_id busy_workers pool db =
    if opened then sync_runtime_config now instance_id busy_workers pool db else (pool, (db, false))

-- An exception is logged, and the time of the last run stays.
abbrev pub logged : Db × Result ℕ → Db × Bool
logged (db, ok n) = (db, true)
logged (db, raise e) = (db, false)

abbrev pub maybe_recover_stale_jobs : (opened : Bool) → (now lease_grace : ℕ) → Db → Db × Bool
maybe_recover_stale_jobs opened now lease_grace db =
    if opened then logged (recover_stale_jobs now lease_grace db) else (db, false)

abbrev pub maybe_materialize_schedules :
    (opened : Bool) → Cron → (now : ℕ) → (uuid : ℕ → ℕ) → Db → Db × Bool
maybe_materialize_schedules opened cron now uuid db =
    if opened then logged (materialize_due_schedules cron now uuid 100 db) else (db, false)

-- `resize`. The outer `none` is the ValidationError of the view that `patch` returns; the patch
-- itself is validated by its model.
abbrev pub only_concurrency : ℕ → RuntimeConfigPatch
only_concurrency n = record {
  default_max_retries = none;
  default_timeout_seconds = none;
  max_timeout_seconds = none;
  worker_concurrency = some n;
  backoff_base_seconds = none;
  backoff_max_seconds = none;
}

abbrev resized : Pool → Option RuntimeConfig → Option Pool
resized pool none = none
resized pool (some config) = some (reconcile pool)

unfoldable pub resize : ℕ → Pool → Option Pool
resize desired pool =
    let (config, answer) = store_patch pool.config (only_concurrency desired) in
    resized (record pool { config = config }) answer

-- What a turn of `_worker_loop` ends in: the thread ends, waits for the poll interval, goes on, or
-- an exception leaves `process_one` and ends the thread.
pub data Turn : Type 0 where
  ends waits goes_on : Turn
  fails : Exception → Turn

abbrev pub turn_of : Option (Result (Option Job)) → Turn
turn_of none = waits
turn_of (some (ok job)) = goes_on
turn_of (some (raise e)) = fails e

-- Which gates the thread passes in a turn, and the times at which it calls the repository.
pub record Passes : Type 0 where
  pub syncs : Bool
  pub materializes : Bool
  pub recovers : Bool

pub record Times : Type 0 where
  pub sync : ℕ
  pub materialize : ℕ
  pub recover : ℕ
  pub claim : ℕ
  pub start : ℕ
  pub finish : ℕ

module _ (text : Exception → String) (cron : Cron) (handler : Job → ℕ → Outcome) (uuid : ℕ → ℕ)
    (others : Db → Db) where
  -- The turn after the synchronization: the configuration of the backoff is that of the pool.
  unfoldable pub after_sync :
      Passes → Times → (lease_grace worker_id : ℕ) → Pool → Db → (Pool × Db) × Turn
  after_sync p t lease_grace worker_id pool db =
      let (db1, _) = maybe_materialize_schedules p.materializes cron t.materialize uuid db in
      let (db2, _) = maybe_recover_stale_jobs p.recovers t.recover lease_grace db1 in
      let (db3, answer) =
        process_one text pool.config handler others t.claim t.start t.finish worker_id db2 in
      ((pool, db3), turn_of answer)

  unfoldable pub worker_turn :
      Passes
      → Times
      → (instance_id busy_workers lease_grace slot worker_id : ℕ) → Pool
      → Db
      → (Pool × Db) × Turn
  worker_turn p t instance_id busy_workers lease_grace slot worker_id pool db =
      if pool.is_stopping
      then ((pool, db), ends)
      else let (pool1, (db1, _)) =
          maybe_sync_runtime_config p.syncs t.sync instance_id busy_workers pool db in
        if ltb pool1.config.worker_concurrency slot
        then ((pool1, db1), ends)
        else after_sync p t lease_grace worker_id pool1 db1
