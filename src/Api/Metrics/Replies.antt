-- ===== src/Api/Metrics/Replies.antt =====
-- What `metrics` of app/main.py answers.
use digitalocean.Base.{
  ℕ, zero, suc, ◌*◌, ◌≤◌, ◌<◌, ◌≡◌, refl, Bool, true, Option, none, some, List, [], ◌∷◌, map,
  length, ◌==◌, ltb, ◌↔◌, is_some, arith, Bool-cases, inl, inr, ap, ◌∙◌,
}
use digitalocean.Models.{RuntimeConfig}
use digitalocean.Sql.{order_by, insert_by}
use digitalocean.Repository.Store.{Db, ok}
use digitalocean.Repository.Depth.{queue_depth, latency_seconds, oldest_queued_age_seconds}
use digitalocean.Repository.Registry.{worker_runtime_status}
use digitalocean.Config.{in_bounds, view, get_runtime_config, store_replace}
use digitalocean.Api.{reply}
use digitalocean.Api.Metrics.{
  Floats, at, micro, value_at, percentile, idle, pressure_of, Metrics, measured, measure,
  metrics_view, metrics,
}

length-insert_by :
    {A : Type 0} (lt : A → A → Bool) (x : A) (xs : List A)
    → length (insert_by lt x xs) ≡ suc (length xs)
length-insert_by lt x [] = refl
length-insert_by lt x (y ∷ ys) = ground (arith, length-insert_by lt x ys)

length-order_by :
    {A : Type 0} (lt : A → A → Bool) (xs : List A) → length (order_by lt xs) ≡ length xs
length-order_by lt [] = refl
length-order_by lt (x ∷ xs) =
    length-insert_by lt x (order_by lt xs) ∙ ap suc (length-order_by lt xs)

at-some : {A : Type 0} (i : ℕ) (xs : List A) → i < length xs → (a : A) × (at i xs ≡ some a)
at-some i [] h = absurd (omega arith)
at-some zero (x ∷ xs) h = (x, refl)
at-some (suc i) (x ∷ xs) h = at-some i xs (omega arith)

pressure_of-idle :
    (due workers utilization : ℕ)
    → (pressure_of due workers utilization ≡ idle) ↔ ((due ≡ 0) × (utilization ≡ 0))
pressure_of-idle due workers utilization = (λ e. ground arith, λ h. rw (h.0, h.1) refl)

module _ {F : Type 0} (fl : Floats F) where
  -- `(len(ordered) - 1) * p` lies between 0 and the last index, for any length.
  abbrev pub IsShare : F → Type 0
  IsShare p =
      (last : ℕ)
      → (fl.floor (fl.mul (fl.of_int last) p) ≤ last) × (fl.ceil (fl.mul (fl.of_int last) p) ≤ last)

  value_at-some :
      (index : F) (xs : List F)
      → fl.floor index < length xs
      → fl.ceil index < length xs
      → (x : F) × (value_at fl index xs ≡ some x)
  value_at-some index xs low up =
      let (a, e) = at-some (fl.floor index) xs low in
      let (b, f) = at-some (fl.ceil index) xs up in
      let weight = fl.sub index (fl.of_int (fl.floor index)) in
      elim (Bool-cases (fl.floor index == fl.ceil index)) [
        | inl same ↦ (fl.round_4 a, rw same (rw e refl))
        | inr apart ↦ (
          fl.round_4 (fl.add (fl.mul a (fl.sub (fl.of_int 1) weight)) (fl.mul b weight)),
          rw apart (rw (e, f) refl),
        )
      ]

  -- No IndexError, and None only for the empty list.
  percentile-some :
      (p : F) (values : List F)
      → IsShare p
      → (o : Option F) × (percentile fl values p ≡ some o) × (is_some o ≡ ltb 0 (length values))
  unfolding percentile
  percentile-some p [] within = (none, refl, refl)
  percentile-some p (v ∷ values) within =
      let ordered = order_by fl.lt (v ∷ values) in
      let many : length ordered ≡ suc (length values) = length-order_by fl.lt (v ∷ values) in
      let (low, up) = within (length values) in
      let (x, e) =
        value_at-some (fl.mul (fl.of_int (length values)) p) ordered (omega (arith, many, low))
          (omega (arith, many, up)) in
      (some x, rw e refl, ground arith)

  length-map : (xs : List ℕ) → length (map fl.seconds xs) ≡ length xs
  length-map [] = refl
  length-map (x ∷ xs) = ap suc (length-map xs)

  measured-valid :
      (read : Option RuntimeConfig → Option (Metrics F)) (store c : RuntimeConfig) (v : Metrics F)
      → in_bounds c ≡ true
      → read (some c) ≡ some v
      → measured read store (ok c) ≡ (c, reply 200 v)
  unfolding store_replace view
  measured-valid read store c v good e = rw (good, e) refl

  -- When the stored configuration is within its bounds, and Python rounds the product of len - 1
  -- with each of the two shares down and up to at most len - 1, for every length, then GET /metrics
  -- raises nothing and answers 200 with the depth of the queue, percentiles that are there exactly
  -- when there are latencies, and the pressure idle exactly when no job is due and the utilization
  -- is 0; and the store of the process has the stored configuration.
  pub metrics-replies :
      (round4 : ℕ → ℕ → ℕ) (now asked busy_workers : ℕ) (store c : RuntimeConfig) (db : Db)
      → IsShare fl.half
      → IsShare fl.ninety_five_hundredths
      → db.runtime_config ≡ some c
      → in_bounds c ≡ true
      → (v : Metrics F) × (metrics fl round4 now asked busy_workers store db ≡ (c, reply 200 v))
        × (is_some v.job_latency_p50_seconds ≡ ltb 0 (length (latency_seconds 500 db)))
        × (is_some v.job_latency_p95_seconds ≡ ltb 0 (length (latency_seconds 500 db)))
        × ((v.pressure ≡ idle) ↔ ((v.queue_depth.due_queued ≡ 0) × (v.worker_utilization ≡ 0)))
        × (v.queue_depth ≡ queue_depth now (λ d. d) db)
  unfolding metrics get_runtime_config
  metrics-replies round4 now asked busy_workers store c db half most stored good =
      let latencies = map fl.seconds (latency_seconds 500 db) in
      let (a, e, some_a) = percentile-some fl.half latencies half in
      let (b, f, some_b) = percentile-some fl.ninety_five_hundredths latencies most in
      let same = ap (ltb 0) (length-map (latency_seconds 500 db)) in
      let v =
        metrics_view round4 (queue_depth now (λ d. d) db) c
          (worker_runtime_status now (10 * micro) db) a b (oldest_queued_age_seconds now asked db)
          busy_workers in
      let read = measure fl round4 now asked busy_workers db in
      let got : get_runtime_config db ≡ ok c = rw stored refl in
      (
        v,
        ap (measured read store) got ∙ measured-valid read store c v good (rw (e, f) refl),
        some_a ∙ same,
        some_b ∙ same,
        pressure_of-idle v.queue_depth.due_queued c.worker_concurrency v.worker_utilization,
        refl,
      )
