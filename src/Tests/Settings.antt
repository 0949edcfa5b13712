-- ===== src/Tests/Settings.antt =====
-- The runtime configuration at the defaults of app/settings.py.
use digitalocean.Base.{◌≡◌, refl, true, some, none}
use digitalocean.Models.{RuntimeConfig, RuntimeConfigPatch}
use digitalocean.Repository.Store.{ok}
use digitalocean.Config.{
  store_patch, in_bounds, merge_runtime_config, get_runtime_config, initialize_runtime_config,
  patch_runtime_config,
}
use digitalocean.Config.Merge.{
  store_patch-merge_runtime_config, patch_in_bounds, IsCoherent, merge_runtime_config_total,
  merge_runtime_config_idempotent,
}
use digitalocean.Config.Shared.{patch_survives_restart}
use digitalocean.Tests.Samples.{empty_db}

abbrev pub defaults : RuntimeConfig
defaults = record {
  default_max_retries = 3;
  default_timeout_seconds = 5000000;
  max_timeout_seconds = 60000000;
  worker_concurrency = 2;
  backoff_base_seconds = 250000;
  backoff_max_seconds = 30000000;
}

-- A cap below the default timeout lowers that too.
abbrev pub patch : RuntimeConfigPatch
patch = record {
  default_max_retries = none;
  default_timeout_seconds = none;
  max_timeout_seconds = some 2000000;
  worker_concurrency = some 8;
  backoff_base_seconds = none;
  backoff_max_seconds = none;
}

abbrev pub patched : RuntimeConfig
patched = record defaults {
  default_timeout_seconds = 2000000;
  max_timeout_seconds = 2000000;
  worker_concurrency = 8;
}

pub defaults_valid : in_bounds defaults ≡ true
unfolding in_bounds
defaults_valid = refl

pub patched_valid : in_bounds patched ≡ true
unfolding in_bounds
patched_valid = refl

pub patch_valid : patch_in_bounds patch ≡ true
unfolding patch_in_bounds
patch_valid = refl

pub merge : merge_runtime_config defaults patch ≡ some patched
unfolding merge_runtime_config in_bounds
merge = refl

merge_runtime_config_total_example :
    (merge_runtime_config defaults patch ≡ some patched)
    × (in_bounds patched ≡ true)
    × IsCoherent patched
merge_runtime_config_total_example =
    merge_runtime_config_total defaults patch defaults_valid patch_valid

merged_again : merge_runtime_config patched patch ≡ some patched
merged_again = merge_runtime_config_idempotent defaults patched patch merge

patch_survives_restart_example :
    let started = (initialize_runtime_config defaults empty_db).0 in
    let shared = (patch_runtime_config patch started).0 in
    let restarted = initialize_runtime_config defaults shared in
    (restarted.1 ≡ ok patched) × (get_runtime_config restarted.0 ≡ ok patched)
patch_survives_restart_example =
    patch_survives_restart defaults defaults patch empty_db defaults_valid patch_valid

patched_store : (store_patch defaults patch).1 ≡ merge_runtime_config defaults patch
patched_store = store_patch-merge_runtime_config defaults patch
