-- ===== src/Tests/Threads.antt =====
-- The threads of a pool at the defaults of app/settings.py.
use digitalocean.Base.{ℕ, arith, ◌≡◌, refl, true, not, some, none}
use digitalocean.Repository.Store.{Db}
use digitalocean.Worker.Pool.{Pool}
use digitalocean.Worker.Gate.{
  Gate, tested, locked, running, at_phase, ran, Reach, here, next, enter, acquire, run, finish,
  new_gate,
}
use digitalocean.Worker.Gate.Spaced.{IsSpaced, is_inside, Reach-IsSpaced}
use digitalocean.Worker.Sync.{same_config, sync_runtime_config, resize, Passes, Times}
use digitalocean.Worker.Sync.Adopts.{Adopts, sync_runtime_config-Adopts, IsResized, resize_lem}
use digitalocean.Settings.{Settings, settings_in_bounds, boot}
use digitalocean.Settings.Boot.{running_pool, boot_lem}
use digitalocean.Tests.Samples.{sample_db}
use digitalocean.Tests.Settings.{defaults, patched, defaults_valid, patched_valid}

-- Thread 1 passes a gate of 5 at time 7, and thread 2 waits before the lock.
abbrev entered : Gate
entered = at_phase 2 tested (at_phase 1 tested (new_gate 7))

abbrev taken : Gate
taken = at_phase 1 locked (record entered { owner = some 1 })

abbrev passed : Gate
passed = at_phase 1 (running 7) taken

abbrev done : Gate
done = ran 1 7 passed

one_pass : Reach 5 (new_gate 7) done
one_pass =
    next
      (next
        (next
          (next (next here (enter (new_gate 7) 1 refl refl))
            (enter (at_phase 1 tested (new_gate 7)) 2 refl refl))
          (acquire entered 1 refl refl))
        (run taken 1 refl refl))
      (finish passed 1 7 refl)

Reach-IsSpaced_example :
    IsSpaced 5 done.runs
    × ((t u : ℕ) → is_inside (done.phase t) ≡ true → is_inside (done.phase u) ≡ true → t ≡ u)
Reach-IsSpaced_example = Reach-IsSpaced 5 7 done one_pass

abbrev pool : Pool
pool = running_pool defaults

abbrev shared_db : Db
shared_db = record sample_db { runtime_config = some patched }

sync_runtime_config-Adopts_example :
    Adopts 50 1 0 patched
      (not (same_config patched defaults))
      pool
      shared_db
      (sync_runtime_config 50 1 0 pool shared_db)
sync_runtime_config-Adopts_example =
    sync_runtime_config-Adopts 50 1 0 patched pool shared_db defaults_valid patched_valid refl

resize-IsResized : IsResized 4 pool (resize 4 pool)
resize-IsResized = resize_lem 4 pool defaults_valid (omega arith) (omega arith)

abbrev passes : Passes
passes = record { syncs = true; materializes = true; recovers = true }

abbrev times : Times
times = record { sync = 50; materialize = 51; recover = 52; claim = 53; start = 54; finish = 55 }

abbrev settings : Settings
settings = record {
  database_url = none;
  database_path = "data/pulsequeue.db";
  default_max_retries = 3;
  default_timeout_seconds = 5000000;
  max_timeout_seconds = 60000000;
  worker_concurrency = 2;
  backoff_base_seconds = 250000;
  backoff_max_seconds = 30000000;
  worker_poll_interval_seconds = 150000;
  worker_lease_grace_seconds = 15000000;
  lease_reaper_interval_seconds = 5000000;
  scheduler_interval_seconds = 1000000;
  config_sync_interval_seconds = 1000000;
  dashboard_enabled = true;
  auto_start_worker = true;
}

settings_valid : settings_in_bounds settings ≡ true
unfolding settings_in_bounds
settings_valid = refl

-- Another process has patched the configuration before.
boot_lem_example : boot settings shared_db ≡ (shared_db, some (running_pool patched))
boot_lem_example = boot_lem settings shared_db settings_valid patched_valid
