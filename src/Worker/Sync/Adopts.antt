-- ===== src/Worker/Sync/Adopts.antt =====
-- A configuration that another process wrote reaches the pool, and so does a resize.
use digitalocean.Base.{
  ℕ, ◌≡◌, ◌≤◌, refl, Bool, true, false, not, ◌&&◌, Option, none, some, List, [], ◌∷◌, ◌++◌, ◌+◌,
  ◌-◌, length, max, ltb, if◌then◌else◌, arith, Bool-cases, inl, inr, ◌∙◌, ap,
}
use digitalocean.Models.{RuntimeConfig}
use digitalocean.Repository.Store.{Db, ok}
use digitalocean.Repository.Registry.{heartbeat_worker}
use digitalocean.Config.{
  in_bounds, overlay, clamp, view, get_runtime_config, store_patch, store_replace,
}
use digitalocean.Config.Merge.{patch_in_bounds, merge_runtime_config_total, clamp-lower}
use digitalocean.Worker.Pool.{Pool, Thread, alive, new_threads, ensure_threads, reconcile, leaves}
use digitalocean.Worker.Pool.Slots.{ensure_threads_lem, alive-new_threads}
use digitalocean.Worker.Sync.{
  same_config, Synced, adopt, sync_runtime_config, only_concurrency, resize,
}

pub alive-alive : (threads : List Thread) → alive (alive threads) ≡ alive threads
alive-alive [] = refl
alive-alive (t ∷ threads) = ground (arith, alive-alive threads)

alive-append : (xs ys : List Thread) → alive (xs ++ ys) ≡ alive xs ++ alive ys
alive-append [] ys = refl
alive-append (t ∷ xs) ys = ground (arith, alive-append xs ys)

-- The new threads live.
alive-ensure_threads :
    (desired : ℕ) (threads : List Thread)
    → alive (ensure_threads desired threads) ≡ ensure_threads desired threads
unfolding ensure_threads
alive-ensure_threads desired threads =
    let current = length (alive threads) in
    let new = new_threads (desired - current) (current + 1) in
    alive-append (alive threads) new
    ∙ rw (alive-alive threads, alive-new_threads (desired - current) (current + 1)) refl

-- What a synchronization makes of the pool and the registry.
abbrev pub Adopts :
    (now instance_id busy_workers : ℕ)
    → (shared : RuntimeConfig) → (changed : Bool) → Pool
    → Db
    → Synced
    → Type 0
Adopts now instance_id busy_workers shared changed pool db (pool', (db', is_written)) =
    (is_written ≡ true)
    × (pool'.config ≡ shared)
    × (db' ≡ heartbeat_worker now instance_id (length pool'.threads) busy_workers db)
    × (alive pool'.threads ≡ pool'.threads)
    × (length pool'.threads ≡ (
        if pool.is_started && changed
        then max (length (alive pool.threads)) shared.worker_concurrency
        else length (alive pool.threads)))

stored :
    (shared : RuntimeConfig) (db : Db)
    → db.runtime_config ≡ some shared
    → get_runtime_config db ≡ ok shared
unfolding get_runtime_config
stored shared db e = rw e refl

module _ (now instance_id busy_workers : ℕ) (shared : RuntimeConfig) (pool : Pool) (db : Db) where
  abbrev with_shared : Pool
  with_shared = record pool { config = shared }

  -- After the pool has got its new threads, or none.
  adopt-Adopts :
      (changed : Bool)
      → Adopts now instance_id busy_workers shared changed pool db
          (adopt now instance_id busy_workers changed (some shared) with_shared db)
  unfolding reconcile
  adopt-Adopts changed = elim (Bool-cases pool.is_started) [
    | inl starts ↦ elim (Bool-cases changed) [
      | inl new ↦
          rw (new, starts)
            (
              refl,
              refl,
              refl,
              alive-alive (ensure_threads shared.worker_concurrency pool.threads),
              ap (λ ts. length ts) (alive-ensure_threads shared.worker_concurrency pool.threads)
                  ∙ (ensure_threads_lem shared.worker_concurrency 0 pool.threads).0,
            )
      | inr old ↦ rw (old, starts) (refl, refl, refl, alive-alive pool.threads, refl)
    ]
    | inr stands ↦ elim (Bool-cases changed) [
      | inl new ↦ rw (new, stands) (refl, refl, refl, alive-alive pool.threads, refl)
      | inr old ↦ rw (old, stands) (refl, refl, refl, alive-alive pool.threads, refl)
    ]
  ]

  sync_runtime_config-adopt :
      in_bounds pool.config ≡ true
      → in_bounds shared ≡ true
      → db.runtime_config ≡ some shared
      → sync_runtime_config now instance_id busy_workers pool db
        ≡ adopt now instance_id busy_workers
            (not (same_config shared pool.config))
            (some shared)
            with_shared
            db
  unfolding sync_runtime_config view store_replace
  sync_runtime_config-adopt own theirs e =
      rw (stored shared db e, sync_runtime_config) (rw (own, theirs, view, store_replace) refl)

  -- When the configuration of the pool and the stored one are within their bounds, a
  -- synchronization takes the stored configuration over, keeps only living threads, as many as are
  -- alive, or, in a started pool whose configuration has changed, as many as are alive or as the
  -- stored configuration asks for, whichever is more, reports this number in the heartbeat, and
  -- writes its time down.
  pub sync_runtime_config-Adopts :
      in_bounds pool.config ≡ true
      → in_bounds shared ≡ true
      → db.runtime_config ≡ some shared
      → Adopts now instance_id busy_workers shared
          (not (same_config shared pool.config))
          pool
          db
          (sync_runtime_config now instance_id busy_workers pool db)
  sync_runtime_config-Adopts own theirs e =
      rw (sync_runtime_config-adopt own theirs e)
        (adopt-Adopts (not (same_config shared pool.config)))

-- A resize within the bounds.
abbrev pub IsResized : ℕ → Pool → Option Pool → Type 0
IsResized n pool none = ⊥
IsResized n pool (some pool') =
    (pool'.config ≡ clamp (record pool.config { worker_concurrency = n }))
    × (in_bounds pool'.config ≡ true)
    × (length pool'.threads
        ≡ (if pool.is_started then max (length (alive pool.threads)) n else length pool.threads))
    × ((slot : ℕ) → pool.is_stopping ≡ false → leaves pool' slot ≡ ltb n slot)

reconcile-IsResized :
    (n : ℕ) (pool : Pool)
    → let c = clamp (record pool.config { worker_concurrency = n }) in
      in_bounds c ≡ true → IsResized n pool (some (reconcile (record pool { config = c })))
unfolding reconcile
reconcile-IsResized n pool good = elim (Bool-cases pool.is_started) [
  | inl starts ↦
      rw starts (refl, good, (ensure_threads_lem n 0 pool.threads).0, λ slot runs. rw runs refl)
  | inr stands ↦ rw stands (refl, good, refl, λ slot runs. rw runs refl)
]

-- When the configuration of the pool is within its bounds and n lies between 1 and 64, a resize to
-- n is not refused: the configuration is the old one with n threads, its defaults lowered to its
-- caps, and within its bounds; a started pool has as many threads as are alive or n, whichever is
-- more; and while the pool is not stopping, exactly the slots above n leave.
pub resize_lem :
    (n : ℕ) (pool : Pool)
    → in_bounds pool.config ≡ true
    → 1 ≤ n
    → n ≤ 64
    → IsResized n pool (resize n pool)
unfolding resize store_patch patch_in_bounds
resize_lem n pool own low high =
    let p = only_concurrency n in
    let fits : patch_in_bounds p ≡ true = ground arith in
    let (whole, good, coherent) = merge_runtime_config_total pool.config p own fits in
    rw (clamp-lower (overlay pool.config p), resize, store_patch, view)
      (rw good (reconcile-IsResized n pool good))
