-- ===== src/Repository/Registry/Fresh.antt =====
-- What a heartbeat changes in the status of the workers.
use digitalocean.Base.{
  ℕ, ◌+◌, ◌-◌, ◌≤◌, ◌≡◌, refl, true, false, List, [], ◌∷◌, ◌++◌, ◌==◌, length, is_some, arith,
  Bool-cases, inl, inr, subst,
}
use native.Mathlib.Decide.{ℕ_discrete}
use digitalocean.Models.{Instance}
use digitalocean.Sql.{select, find, update, delete}
use digitalocean.Sql.Update.{Unique, Unique-update, Unique-append}
use digitalocean.Repository.Store.{Db}
use digitalocean.Repository.Registry.{
  is_instance, refresh, upsert, heartbeat_worker, sum_of, is_fresh, totals, worker_runtime_status,
}

-- The fresh rows of the other instances.
abbrev pub others : (cutoff instance_id : ℕ) → List Instance → List Instance
others cutoff instance_id rows = select (is_fresh cutoff) (delete (is_instance instance_id) rows)

-- A conflict makes the row that was to be inserted.
update-refresh :
    (row : Instance) (rows : List Instance)
    → update (is_instance row.instance_id) (refresh row) rows
      ≡ update (is_instance row.instance_id) (λ i. row) rows
update-refresh row [] = refl
update-refresh row (i ∷ rows) = elim (ℕ_discrete i.instance_id row.instance_id) [
  | yes e ↦ let same : refresh row i ≡ row = cc in ground (arith, update-refresh row rows)
  | no other ↦ ground (arith, update-refresh row rows)
]

Unique-upsert :
    (row : Instance) (rows : List Instance)
    → Unique (λ i. i.instance_id) rows
    → Unique (λ i. i.instance_id) (upsert row rows)
unfolding upsert
Unique-upsert row rows u = elim (Bool-cases (is_some (find (is_instance row.instance_id) rows))) [
  | inl h ↦ rw h (
      Unique-update (λ i. i.instance_id) (is_instance row.instance_id) (refresh row) rows
        (λ i. refl) u)
  | inr h ↦ rw h (Unique-append (λ i. i.instance_id) rows row h u)
]

module _ (f : Instance → ℕ) (cutoff : ℕ) (row : Instance) (seen : is_fresh cutoff row ≡ true) where
  sum-append :
      (rows : List Instance)
      → is_some (find (is_instance row.instance_id) rows) ≡ false
      → sum_of f (select (is_fresh cutoff) (rows ++ row ∷ []))
        ≡ f row + sum_of f (others cutoff row.instance_id rows)
  sum-append [] h = ground arith
  sum-append (i ∷ rows) h = ground (arith, sum-append rows)

  sum-absent :
      (rows : List Instance)
      → is_some (find (is_instance row.instance_id) rows) ≡ false
      → sum_of f (select (is_fresh cutoff) (update (is_instance row.instance_id) (λ i. row) rows))
        ≡ sum_of f (others cutoff row.instance_id rows)
  sum-absent [] h = refl
  sum-absent (i ∷ rows) h = ground (arith, sum-absent rows)

  sum-update :
      (rows : List Instance)
      → Unique (λ i. i.instance_id) rows
      → is_some (find (is_instance row.instance_id) rows) ≡ true
      → sum_of f (select (is_fresh cutoff) (update (is_instance row.instance_id) (λ i. row) rows))
        ≡ f row + sum_of f (others cutoff row.instance_id rows)
  sum-update [] u h = cc
  sum-update (i ∷ rows) u h = elim (ℕ_discrete i.instance_id row.instance_id) [
    | yes e ↦
        let gone = subst (λ k. is_some (find (λ j. j.instance_id == k) rows) ≡ false) e u.0 in
        ground (arith, sum-absent rows gone)
    | no other ↦ ground (arith, sum-update rows u.1)
  ]

  sum-upsert :
      (rows : List Instance)
      → Unique (λ i. i.instance_id) rows
      → sum_of f (select (is_fresh cutoff) (upsert row rows))
        ≡ f row + sum_of f (others cutoff row.instance_id rows)
  unfolding upsert
  sum-upsert rows u = elim (Bool-cases (is_some (find (is_instance row.instance_id) rows))) [
    | inl h ↦ rw (h, update-refresh row rows) (sum-update rows u h)
    | inr h ↦ rw h (sum-append rows h)
  ]

length-sum : (rows : List Instance) → length rows ≡ sum_of (λ i. 1) rows
length-sum [] = refl
length-sum (i ∷ rows) = omega (arith, length-sum rows)

-- When the registry has one row for each instance, then after a heartbeat of an instance at time
-- now, and at any later time that is at most the maximal age after now, the status of the workers
-- is the status of the other instances plus one instance with the threads of the heartbeat; and the
-- registry still has one row for each instance.
pub heartbeat_worker-status :
    (now later max_age instance_id active_threads busy_threads : ℕ) (db : Db)
    → Unique (λ i. i.instance_id) db.worker_instances
    → later ≤ now + max_age
    → let db' = heartbeat_worker now instance_id active_threads busy_threads db in
      let s = worker_runtime_status later max_age db' in
      let rest = totals (others (later - max_age) instance_id db.worker_instances) in
      (s.instances ≡ 1 + rest.instances)
      × (s.active_threads ≡ active_threads + rest.active_threads)
      × (s.busy_threads ≡ busy_threads + rest.busy_threads)
      × Unique (λ i. i.instance_id) db'.worker_instances
unfolding heartbeat_worker worker_runtime_status
heartbeat_worker-status now later max_age instance_id active_threads busy_threads db u h =
    let row : Instance = record {
      instance_id = instance_id;
      active_threads = active_threads;
      busy_threads = busy_threads;
      last_seen_at = now;
    } in
    let cutoff = later - max_age in
    let seen : is_fresh cutoff row ≡ true = ground arith in
    let one = sum-upsert (λ i. 1) cutoff row seen db.worker_instances u in
    (
      rw
          (
            length-sum (select (is_fresh cutoff) (upsert row db.worker_instances)),
            length-sum (others cutoff instance_id db.worker_instances),
          )
          one,
      sum-upsert (λ i. i.active_threads) cutoff row seen db.worker_instances u,
      sum-upsert (λ i. i.busy_threads) cutoff row seen db.worker_instances u,
      Unique-upsert row db.worker_instances u,
    )
