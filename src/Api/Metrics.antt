-- ===== src/Api/Metrics.antt =====
-- `metrics` and `percentile` of app/main.py, and the handlers that only read. Python's floats are an
-- argument (Floats), and so is `round(n / d, 4)` of integers: `round4 n d`, in ten-thousandths.
pub mod Replies
use digitalocean.Base.{
  ◌>>=◌, ℕ, zero, suc, ◌+◌, ◌-◌, ◌*◌, ◌/◌, ◌%◌, Bool, true, ◌||◌, ◌&&◌, Option, none, some, List,
  [], ◌∷◌, map, length, ◌==◌, ltb, if◌then◌else◌,
}
use mathlib.Core.Option
use digitalocean.Models.{Job, DeadLetter, Schedule, QueueDepth, WorkerStatus, RuntimeConfig}
use digitalocean.Sql.{order_by}
use digitalocean.Repository.Store.{Db, Result, ok, raise}
use digitalocean.Repository.Cancel.{drain_queue}
use digitalocean.Repository.Depth.{
  queue_depth, list_scheduled_jobs, list_dead_letters, latency_seconds, oldest_queued_age_seconds,
}
use digitalocean.Repository.Registry.{worker_runtime_status}
use digitalocean.Repository.Schedules.{list_schedules}
use digitalocean.Config.{get_runtime_config, store_replace}
use digitalocean.Api.{Response, reply, internal_error}

-- Python's floats: `<`, the conversion of an integer and of microseconds to seconds, the
-- operations, `math.floor`, `math.ceil`, and `round(x, 4)`.
pub record Floats (F : Type 0) : Type 0 where
  pub lt : F → F → Bool
  pub of_int : ℕ → F
  pub seconds : ℕ → F
  pub add : F → F → F
  pub sub : F → F → F
  pub mul : F → F → F
  pub floor : F → ℕ
  pub ceil : F → ℕ
  pub round_4 : F → F
  pub half : F
  pub ninety_five_hundredths : F

-- `ordered[i]`; `none` is an IndexError.
abbrev pub at : {A : Type 0} → ℕ → List A → Option A
at i [] = none
at zero (x ∷ xs) = some x
at (suc i) (x ∷ xs) = at i xs

-- Microseconds in a second.
abbrev pub micro : ℕ
micro = 1000000

-- `round(ordered[lower] * (1 - weight) + ordered[upper] * weight, 4)`
abbrev pub weighted : {F : Type 0} → Floats F → (weight : F) → Option F → Option F → Option F
weighted fl weight (some a) (some b) =
    some (fl.round_4 (fl.add (fl.mul a (fl.sub (fl.of_int 1) weight)) (fl.mul b weight)))
weighted fl weight _ _ = none

-- The value at an index. `int(index)` is `lower` where the two integers are equal.
abbrev pub value_at : {F : Type 0} → Floats F → (index : F) → List F → Option F
value_at fl index ordered =
    let lower = fl.floor index in
    let upper = fl.ceil index in
    if lower == upper
    then Option.map fl.round_4 (at lower ordered)
    else weighted fl (fl.sub index (fl.of_int lower)) (at lower ordered) (at upper ordered)

-- `percentile`; the outer `none` is an IndexError, the inner one None.
unfoldable pub percentile : {F : Type 0} → Floats F → List F → (p : F) → Option (Option F)
percentile fl [] p = some none
percentile fl (v ∷ values) p =
    Option.map some
      (value_at fl (fl.mul (fl.of_int (length values)) p) (order_by fl.lt (v ∷ values)))

pub data Pressure : Type 0 where
  high normal idle : Pressure

-- `MetricsView`
pub record Metrics (F : Type 0) : Type 0 where
  pub queue_depth : QueueDepth
  pub worker_concurrency : ℕ
  pub busy_workers : ℕ
  pub active_worker_instances : ℕ
  pub active_worker_threads : ℕ
  pub active_busy_threads : ℕ
  pub worker_utilization : ℕ
  pub job_latency_p50_seconds : Option F
  pub job_latency_p95_seconds : Option F
  pub dead_letter_rate : ℕ
  pub pressure : Pressure
  pub oldest_queued_age_seconds : Option ℕ

-- `x or y`: 0 is falsy.
abbrev pub or_number : ℕ → ℕ → ℕ
or_number x y = if x == 0 then y else x

-- `round(n / d, 4) if d else 0.0`
abbrev pub ratio : (round4 : ℕ → ℕ → ℕ) → ℕ → ℕ → ℕ
ratio round4 n d = if d == 0 then 0 else round4 n d

-- The utilization is in ten-thousandths.
abbrev pub pressure_of : (due_queued worker_concurrency utilization : ℕ) → Pressure
pressure_of due_queued worker_concurrency utilization =
    if due_queued == 0 && utilization == 0
    then idle
    else (if ltb (worker_concurrency * 20) due_queued || ltb 8000 utilization then high else normal)

abbrev pub metrics_view :
    {F : Type 0}
    → (round4 : ℕ → ℕ → ℕ) → QueueDepth
    → RuntimeConfig
    → WorkerStatus
    → (p50 p95 : Option F) → (oldest_age : Option ℕ) → (busy_workers : ℕ) → Metrics F
metrics_view round4 depth config status p50 p95 oldest_age busy_workers =
    let completed = depth.succeeded + depth.failed + depth.dead_lettered in
    let observed_busy = or_number status.busy_threads busy_workers in
    let observed_threads = or_number status.active_threads config.worker_concurrency in
    let utilization = ratio round4 observed_busy observed_threads in
    record {
      queue_depth = depth;
      worker_concurrency = config.worker_concurrency;
      busy_workers = busy_workers;
      active_worker_instances = status.instances;
      active_worker_threads = status.active_threads;
      active_busy_threads = status.busy_threads;
      worker_utilization = utilization;
      job_latency_p50_seconds = p50;
      job_latency_p95_seconds = p95;
      dead_letter_rate = ratio round4 depth.dead_lettered completed;
      pressure = pressure_of depth.due_queued config.worker_concurrency utilization;
      oldest_queued_age_seconds = Option.map (λ age. round4 age micro) oldest_age;
    }

-- The store after `config.replace`, and the answer.
abbrev pub measured :
    {F : Type 0}
    → (Option RuntimeConfig → Option (Metrics F))
    → RuntimeConfig
    → Result RuntimeConfig
    → RuntimeConfig × Response (Metrics F)
measured view_of store (raise e) = (store, internal_error)
measured view_of store (ok shared) =
    let (store', config) = store_replace store shared in
    (store', elim (view_of config) [ none ↦ internal_error | some view ↦ reply 200 view ])

-- The queries and the view, with no commit of another connection between them. `now` is the time
-- of the depth and of the status, `asked` that of the age.
abbrev pub measure :
    {F : Type 0}
    → Floats F
    → (round4 : ℕ → ℕ → ℕ) → (now asked busy_workers : ℕ) → Db
    → Option RuntimeConfig
    → Option (Metrics F)
measure fl round4 now asked busy_workers db config = do
  let latencies = map fl.seconds (latency_seconds 500 db)
  c ← config
  p50 ← percentile fl latencies fl.half
  p95 ← percentile fl latencies fl.ninety_five_hundredths
  some (
      metrics_view round4 (queue_depth now (λ d. d) db) c
        (worker_runtime_status now (10 * micro) db) p50 p95 (oldest_queued_age_seconds now asked db)
        busy_workers)

-- `metrics`
unfoldable pub metrics :
    {F : Type 0}
    → Floats F
    → (round4 : ℕ → ℕ → ℕ) → (now asked busy_workers : ℕ) → RuntimeConfig
    → Db
    → RuntimeConfig × Response (Metrics F)
metrics fl round4 now asked busy_workers store db =
    measured (measure fl round4 now asked busy_workers db) store (get_runtime_config db)

-- `scheduled_jobs`, `list_schedules`, `queue_depth`, `drain_queue` and `dead_letters`, with the
-- default limits of the repository.
abbrev pub get_scheduled_jobs : ℕ → Db → Response (List Job)
get_scheduled_jobs now db = reply 200 (list_scheduled_jobs now 100 db)

abbrev pub get_schedules : Db → Response (List Schedule)
get_schedules db = reply 200 (list_schedules db)

abbrev pub get_queue_depth : (now : ℕ) → (between : Db → Db) → Db → Response QueueDepth
get_queue_depth now between db = reply 200 (queue_depth now between db)

abbrev pub post_drain : ℕ → Db → Db × Response ℕ
post_drain now db = let (db', cancelled) = drain_queue now db in (db', reply 200 cancelled)

abbrev pub get_dead_letters : Db → Response (List DeadLetter)
get_dead_letters db = reply 200 (list_dead_letters 50 db)
