-- ===== src/Settings/Boot.antt =====
-- A process starts with the configuration that the database keeps.
use digitalocean.Base.{◌≡◌, refl, Bool, Option, true, false, ◌-◌, some, or_else, arith, ap}
use digitalocean.Models.{RuntimeConfig}
use digitalocean.Repository.Store.{Db}
use digitalocean.Config.{
  in_bounds, view, store_replace, get_runtime_config, initialize_runtime_config,
}
use digitalocean.Worker.Pool.{Pool, new_threads, ensure_threads, start}
use digitalocean.Settings.{
  Settings, settings_in_bounds, from_settings, new_pool, boot, start_if, create_app,
}

-- The settings of the environment give a configuration within its bounds.
from_settings-in_bounds :
    (s : Settings) → settings_in_bounds s ≡ true → in_bounds (from_settings s) ≡ true
unfolding settings_in_bounds in_bounds
from_settings-in_bounds s h = ground arith

-- The pool of a process that runs with a configuration.
abbrev pub running_pool : RuntimeConfig → Pool
running_pool c = record {
  config = c;
  threads = new_threads c.worker_concurrency 1;
  is_started = true;
  is_stopping = false;
}

start_running : (c : RuntimeConfig) → start c (new_pool c) ≡ running_pool c
unfolding start store_replace ensure_threads
start_running c =
    let all : c.worker_concurrency - 0 ≡ c.worker_concurrency = omega arith in
    ap (λ n. record (running_pool c) { threads = new_threads n 1 }) all

-- When the settings are within their bounds and so is the configuration that the database keeps or,
-- where it keeps none, the one of the settings, a process that starts runs with that configuration,
-- has stored it, and has living threads with the slots 1 to its worker_concurrency.
pub boot_lem :
    (s : Settings) (db : Db)
    → settings_in_bounds s ≡ true
    → in_bounds (or_else db.runtime_config (from_settings s)) ≡ true
    → let c = or_else db.runtime_config (from_settings s) in
      boot s db ≡ (record db { runtime_config = some c }, some (running_pool c))
unfolding boot view store_replace initialize_runtime_config get_runtime_config
boot_lem s db h good =
    let c = or_else db.runtime_config (from_settings s) in
    let own = from_settings-in_bounds s h in
    rw (own, boot, view) (rw (good, store_replace) (rw (start_running c) refl))

-- The pool of an API process, with threads or without.
abbrev pub app_pool : Bool → RuntimeConfig → Pool
app_pool true c = running_pool c
app_pool false c = new_pool c

started_pool :
    (b : Bool) (c : RuntimeConfig) (db : Db)
    → db.runtime_config ≡ some c
    → start_if b db (some (new_pool c)) ≡ some (app_pool b c)
unfolding get_runtime_config
started_pool true c db e = rw (e, start_running c) refl
started_pool false c db e = refl

-- When the settings are within their bounds and so is the configuration that the database keeps or,
-- where it keeps none, the one of the settings, an API process runs with that configuration and has
-- stored it; it has threads when the caller, or else auto_start_worker, asks for them.
pub create_app_lem :
    (s : Settings) (start_worker : Option Bool) (db : Db)
    → settings_in_bounds s ≡ true
    → in_bounds (or_else db.runtime_config (from_settings s)) ≡ true
    → let c = or_else db.runtime_config (from_settings s) in
      let asked = or_else start_worker s.auto_start_worker in
      create_app s start_worker db
      ≡ (record db { runtime_config = some c }, some (app_pool asked c))
unfolding create_app view store_replace initialize_runtime_config get_runtime_config
create_app_lem s start_worker db h good =
    let c = or_else db.runtime_config (from_settings s) in
    let asked = or_else start_worker s.auto_start_worker in
    let own = from_settings-in_bounds s h in
    let pool = started_pool asked c (record db { runtime_config = some c }) refl in
    rw (own, create_app, view) (rw (good, store_replace) (rw pool refl))
