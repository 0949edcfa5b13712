-- ===== src/Config.antt =====
-- The runtime configuration: the bounds of app/models.py, `merge_runtime_config` and the methods of
-- app/repository.py on the table `runtime_config`, and `RuntimeConfigStore` of app/config_store.py.
pub mod Merge
pub mod Shared
use digitalocean.Base.{
  ℕ, ◌*◌, min, Bool, ◌&&◌, Option, none, some, ltb, leb, or_else, is_some, if◌then◌else◌,
}
use digitalocean.Models.{RuntimeConfig, RuntimeConfigPatch}
use digitalocean.Repository.Store.{Db, Result, ok, raise, not_initialized}

-- A number of seconds, in microseconds.
abbrev pub seconds : ℕ → ℕ
seconds n = n * 1000000

-- `Field(gt=0, le=...)`
abbrev pub is_duration : ℕ → ℕ → Bool
is_duration top t = ltb 0 t && leb t top

-- The bounds of the fields of `RuntimeConfig`. An integer is not negative in the model.
unfoldable pub in_bounds : RuntimeConfig → Bool
in_bounds c =
    leb c.default_max_retries 20
    && (is_duration (seconds 3600) c.default_timeout_seconds
        && (is_duration (seconds 3600) c.max_timeout_seconds
            && ((leb 1 c.worker_concurrency && leb c.worker_concurrency 64)
                && (is_duration (seconds 60) c.backoff_base_seconds
                    && is_duration (seconds 600) c.backoff_max_seconds))))

-- `RuntimeConfig(...)`: `none` is pydantic's ValidationError.
abbrev pub validate : RuntimeConfig → Option RuntimeConfig
validate c = if in_bounds c then some c else none

-- The fields that a patch leaves open keep their values.
abbrev pub overlay : RuntimeConfig → RuntimeConfigPatch → RuntimeConfig
overlay c p = record {
  default_max_retries = or_else p.default_max_retries c.default_max_retries;
  default_timeout_seconds = or_else p.default_timeout_seconds c.default_timeout_seconds;
  max_timeout_seconds = or_else p.max_timeout_seconds c.max_timeout_seconds;
  worker_concurrency = or_else p.worker_concurrency c.worker_concurrency;
  backoff_base_seconds = or_else p.backoff_base_seconds c.backoff_base_seconds;
  backoff_max_seconds = or_else p.backoff_max_seconds c.backoff_max_seconds;
}

abbrev pub clamp : RuntimeConfig → RuntimeConfig
clamp v = record v {
  default_timeout_seconds = min v.default_timeout_seconds v.max_timeout_seconds;
  backoff_base_seconds = min v.backoff_base_seconds v.backoff_max_seconds;
}

-- `merge_runtime_config`
unfoldable pub merge_runtime_config : RuntimeConfig → RuntimeConfigPatch → Option RuntimeConfig
merge_runtime_config current patch = validate (clamp (overlay current patch))

-- The two tests of `RuntimeConfigStore.patch`.
abbrev pub lower_timeout : RuntimeConfig → RuntimeConfig
lower_timeout s =
    if ltb s.max_timeout_seconds s.default_timeout_seconds
    then record s { default_timeout_seconds = s.max_timeout_seconds }
    else s

abbrev pub lower_backoff : RuntimeConfig → RuntimeConfig
lower_backoff s =
    if ltb s.backoff_max_seconds s.backoff_base_seconds
    then record s { backoff_base_seconds = s.backoff_max_seconds }
    else s

-- `RuntimeConfigStore.view`, `patch` and `replace`: the store's fields are those of a
-- configuration. The new fields stay written when the view that follows is not valid.
unfoldable pub view : RuntimeConfig → Option RuntimeConfig
view store = validate store

unfoldable pub store_patch :
    RuntimeConfig → RuntimeConfigPatch → RuntimeConfig × Option RuntimeConfig
unfolding view
store_patch store patch = let s = lower_backoff (lower_timeout (overlay store patch)) in (s, view s)

unfoldable pub store_replace : RuntimeConfig → RuntimeConfig → RuntimeConfig × Option RuntimeConfig
unfolding view
store_replace store config = (config, view config)

-- Only validated configurations are stored; that a read validates the row again is left out.
-- `initialize_runtime_config`: `INSERT OR IGNORE`, and the row that is then there.
unfoldable pub get_runtime_config : Db → Result RuntimeConfig
get_runtime_config db = elim db.runtime_config [ none ↦ raise not_initialized | some c ↦ ok c ]

unfoldable pub initialize_runtime_config : RuntimeConfig → Db → Db × Result RuntimeConfig
initialize_runtime_config default db =
    let db' = record db { runtime_config = some (or_else db.runtime_config default) } in
    (db', get_runtime_config db')

-- `patch_runtime_config`. A merge that is not valid leaves the table; the outer `none` is the
-- ValidationError.
abbrev pub merged : Db → Option RuntimeConfig → Db × Option (Result RuntimeConfig)
merged db none = (db, none)
merged db (some updated) = (record db { runtime_config = some updated }, some (ok updated))

unfoldable pub patch_runtime_config : RuntimeConfigPatch → Db → Db × Option (Result RuntimeConfig)
unfolding merge_runtime_config
patch_runtime_config patch db = elim db.runtime_config [
  | none ↦ (db, some (raise not_initialized))
  | some current ↦ merged db (merge_runtime_config current patch)
]
