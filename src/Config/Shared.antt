-- ===== src/Config/Shared.antt =====
-- The configuration that the processes share through the database.
use digitalocean.Base.{◌≡◌, refl, true, or_else}
use digitalocean.Models.{RuntimeConfig, RuntimeConfigPatch}
use digitalocean.Repository.Store.{Db, ok}
use digitalocean.Config.{
  in_bounds, overlay, clamp, get_runtime_config, initialize_runtime_config, patch_runtime_config,
}
use digitalocean.Config.Merge.{patch_in_bounds, merge_runtime_config_total}

-- When the stored configuration (or, where there is none, the one of the first start) and the patch
-- are within their bounds, then after a start, a patch and another start with any settings, the
-- second start and every later read answer the patched configuration.
pub patch_survives_restart :
    (first later : RuntimeConfig) (patch : RuntimeConfigPatch) (db : Db)
    → in_bounds (or_else db.runtime_config first) ≡ true
    → patch_in_bounds patch ≡ true
    → let started = (initialize_runtime_config first db).0 in
      let patched = (patch_runtime_config patch started).0 in
      let restarted = initialize_runtime_config later patched in
      let expected = clamp (overlay (or_else db.runtime_config first) patch) in
      (restarted.1 ≡ ok expected) × (get_runtime_config restarted.0 ≡ ok expected)
unfolding initialize_runtime_config patch_runtime_config get_runtime_config
patch_survives_restart first later patch db v w =
    let merge = (merge_runtime_config_total (or_else db.runtime_config first) patch v w).0 in
    rw merge (refl, refl)
