-- ===== src/Settings.antt =====
-- app/settings.py, `from_settings` of app/config_store.py, app/repository_factory.py, and the start
-- of a process in `main` of app/worker.py and `create_app` of app/main.py. Durations are
-- microseconds; what the environment gives is the record.
pub mod Boot
use Prim.Native.String.{len, slice}
use digitalocean.Base.{
  ℕ, ◌≤◌, String, Bool, true, false, ◌&&◌, Option, none, some, [], ◌==◌, ltb, leb, or_else,
  if◌then◌else◌,
}
use digitalocean.Handler.{is_text}
use digitalocean.Models.{RuntimeConfig, str}
use digitalocean.Repository.Store.{Db, Result, ok, raise}
use digitalocean.Config.{
  seconds, is_duration, view, store_replace, get_runtime_config, initialize_runtime_config,
}
use digitalocean.Worker.Pool.{Pool, start}

pub record Settings : Type 0 where
  pub database_url : Option String
  pub database_path : String
  pub default_max_retries : ℕ
  pub default_timeout_seconds : ℕ
  pub max_timeout_seconds : ℕ
  pub worker_concurrency : ℕ
  pub backoff_base_seconds : ℕ
  pub backoff_max_seconds : ℕ
  pub worker_poll_interval_seconds : ℕ
  pub worker_lease_grace_seconds : ℕ
  pub lease_reaper_interval_seconds : ℕ
  pub scheduler_interval_seconds : ℕ
  pub config_sync_interval_seconds : ℕ
  pub dashboard_enabled : Bool
  pub auto_start_worker : Bool

-- `Field(ge=..., le=...)`
abbrev pub is_between : (low high : ℕ) → ℕ → Bool
is_between low high t = leb low t && leb t high

-- The bounds of the fields, those of the configuration first.
unfoldable pub settings_in_bounds : Settings → Bool
settings_in_bounds s =
    leb s.default_max_retries 20
    && (is_duration (seconds 300) s.default_timeout_seconds
        && (is_duration (seconds 3600) s.max_timeout_seconds
            && ((leb 1 s.worker_concurrency && leb s.worker_concurrency 64)
                && (is_duration (seconds 60) s.backoff_base_seconds
                    && (is_duration (seconds 600) s.backoff_max_seconds
                        && (is_duration (seconds 10) s.worker_poll_interval_seconds
                            && (is_between (seconds 1) (seconds 600) s.worker_lease_grace_seconds
                                && (is_between 500000 (seconds 60) s.lease_reaper_interval_seconds
                                    && (is_between 100000 (seconds 60) s.scheduler_interval_seconds
                                        && is_between 100000 (seconds 60)
                                            s.config_sync_interval_seconds)))))))))

abbrev pub from_settings : Settings → RuntimeConfig
from_settings s = record {
  default_max_retries = s.default_max_retries;
  default_timeout_seconds = s.default_timeout_seconds;
  max_timeout_seconds = s.max_timeout_seconds;
  worker_concurrency = s.worker_concurrency;
  backoff_base_seconds = s.backoff_base_seconds;
  backoff_max_seconds = s.backoff_max_seconds;
}

-- The class that `create_repository` chooses, with its argument.
pub data Repository : Type 0 where
  sqlite postgres : String → Repository

-- `text.startswith(prefix)`
abbrev pub starts_with : String → String → Bool
starts_with text prefix = is_text prefix (str (slice text 0 (len prefix)))

-- `none` is the ValueError. An empty URL is falsy.
unfoldable pub create_repository : Settings → Option Repository
create_repository s = elim s.database_url [
  | none ↦ some (sqlite s.database_path)
  | some url ↦
      if len url == 0
      then some (sqlite s.database_path)
      else (if starts_with url "postgres://"
          then some (postgres url)
          else (if starts_with url "postgresql://" then some (postgres url) else none))
]

-- `WorkerPool(repository, config, ...)`
abbrev pub new_pool : RuntimeConfig → Pool
new_pool config = record { config = config; threads = []; is_started = false; is_stopping = false }

-- `pool.start()`, which reads the table again; `none` is an exception.
abbrev pub started : Pool → Result RuntimeConfig → Option Pool
started pool (raise e) = none
started pool (ok shared) = some (start shared pool)

-- `config.replace`, whose view may be refused.
abbrev pub replaced_pool : RuntimeConfig × Option RuntimeConfig → Option Pool
replaced_pool (config, none) = none
replaced_pool (config, some view) = some (new_pool config)

-- The pool before it starts.
abbrev pub configured : RuntimeConfig → Result RuntimeConfig → Option Pool
configured store (raise e) = none
configured store (ok shared) = replaced_pool (store_replace store shared)

abbrev pub start_pool : Db → Option Pool → Option Pool
start_pool db none = none
start_pool db (some pool) = started pool (get_runtime_config db)

-- What a process does with its pool.
abbrev pub with_default :
    (Db → Option Pool → Option Pool) → RuntimeConfig → Option RuntimeConfig → Db → Db × Option Pool
with_default go store none db = (db, none)
with_default go store (some default) db =
    let (db', r) = initialize_runtime_config default db in (db', go db' (configured store r))

-- The start of a worker process.
unfoldable pub boot : Settings → Db → Db × Option Pool
boot s db = with_default start_pool (from_settings s) (view (from_settings s)) db

-- `if should_start_worker: worker_pool.start()`
abbrev pub start_if : Bool → Db → Option Pool → Option Pool
start_if true db pool = start_pool db pool
start_if false db pool = pool

-- The start of an API process, `create_app` and the first half of its lifespan.
unfoldable pub create_app : Settings → (start_worker : Option Bool) → Db → Db × Option Pool
create_app s start_worker db =
    with_default (start_if (or_else start_worker s.auto_start_worker)) (from_settings s)
      (view (from_settings s)) db
