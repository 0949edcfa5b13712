-- ===== src/Api.antt =====
-- The handlers of app/main.py that change the tables or the configuration. FastAPI's validation of
-- a request body is a test in front of the handler; the detail texts of errors are left out.
pub mod Limits
pub mod LoadTest
pub mod Metrics
use digitalocean.Base.{
  ℕ, ℤ, Bool, true, ◌&&◌, not, Option, none, some, ltb, leb, ltb_ℤ, or_else, pos, negsuc,
  if◌then◌else◌,
}
use digitalocean.Models.{
  is_dict, Job, JobStatus, JobCreate, Schedule, ScheduleCreate, RuntimeConfig, RuntimeConfigPatch,
}
use digitalocean.Repository.Store.{
  Db, Result, ok, raise, integrity_error, idempotency_conflict, get_job,
}
use digitalocean.Repository.Create.{Digest, create_job}
use digitalocean.Repository.Cancel.{cancel_job}
use digitalocean.Repository.Schedules.{Cron, create_schedule, set_schedule_enabled, delete_schedule}
use digitalocean.Worker.Pool.{Pool, reconcile}
use digitalocean.Config.{view, store_replace, get_runtime_config, patch_runtime_config}

-- A body with its status code, an HTTPException, or an exception that no handler catches.
pub data Response (A : Type 0) : Type 0 where
  reply : (status_code : ℕ) → A → Response A
  http_exception : (status_code : ℕ) → Response A
  internal_error : Response A

-- `Field(ge=-100, le=100)`
abbrev pub is_priority : ℤ → Bool
is_priority p = not (ltb_ℤ p (negsuc 99)) && not (ltb_ℤ (pos 100) p)

-- `Field(default=None, ge=0, le=20)` and `Field(default=None, gt=0)`
abbrev pub is_retries : Option ℕ → Bool
is_retries none = true
is_retries (some n) = leb n 20

abbrev pub is_timeout : Option ℕ → Bool
is_timeout none = true
is_timeout (some t) = ltb 0 t

-- The types and bounds of the fields of `JobCreate`.
abbrev pub is_job_create : JobCreate → Bool
is_job_create r =
    is_dict r.payload
    && (is_priority r.priority && (is_retries r.max_retries && is_timeout r.timeout_seconds))

-- The limits of a submission: its own, or the configuration's.
abbrev pub effective : Option ℕ → ℕ → ℕ
effective own default = or_else own default

-- What the end of the handler makes of the repository's answer. An empty answer has no `id`.
abbrev pub job_created : Db × Result (Option Job) → Db × Response (ℕ × JobStatus)
job_created (db, ok (some job)) = (db, reply 202 (job.id, job.status))
job_created (db, ok none) = (db, internal_error)
job_created (db, raise idempotency_conflict) = (db, http_exception 409)
job_created (db, raise _) = (db, internal_error)

-- `POST /jobs`, where the view of the process's configuration is valid.
unfoldable pub accept_job :
    Digest
    → (before after : Db → Db) → (now job_id : ℕ) → JobCreate
    → (idempotency_key : Option ℕ) → RuntimeConfig
    → Db
    → Db × Response (ℕ × JobStatus)
accept_job digest before after now job_id request key c db =
    let max_retries = effective request.max_retries c.default_max_retries in
    let timeout = effective request.timeout_seconds c.default_timeout_seconds in
    if ltb c.max_timeout_seconds timeout
    then (db, http_exception 422)
    else job_created (create_job digest before after now job_id request max_retries timeout key db)

unfoldable pub post_job :
    Digest
    → (before after : Db → Db) → (now job_id : ℕ) → JobCreate
    → (idempotency_key : Option ℕ) → (store : RuntimeConfig) → Db
    → Db × Response (ℕ × JobStatus)
post_job digest before after now job_id request key store db =
    if is_job_create request
    then elim (view store) [
      | none ↦ (db, internal_error)
      | some c ↦ accept_job digest before after now job_id request key c db
    ]
    else (db, http_exception 422)

-- `if x is None: raise HTTPException(404)`
abbrev pub or_404 : {A : Type 0} → Option A → Response A
or_404 none = http_exception 404
or_404 (some a) = reply 200 a

unfoldable pub read_job : (job_id : ℕ) → Db → Response Job
read_job job_id db = or_404 (get_job job_id db)

unfoldable pub post_cancel : (now job_id : ℕ) → Db → Db × Response Job
post_cancel now job_id db = let (db', job) = cancel_job now job_id db in (db', or_404 job)

-- `POST /schedules`; the types and bounds are those of `ScheduleCreate`, but for lengths of texts.
abbrev pub is_schedule_create : ScheduleCreate → Bool
is_schedule_create r =
    is_dict r.payload
    && (is_priority r.priority && (is_retries r.max_retries && is_timeout r.timeout_seconds))

abbrev pub schedule_created : Db × Result (Option Schedule) → Db × Response Schedule
schedule_created (db, ok (some s)) = (db, reply 201 s)
schedule_created (db, _) = (db, internal_error)

-- `checked_at` is the time of the first call of croniter, `now` that of the repository.
unfoldable pub accept_schedule :
    Cron
    → (checked_at now schedule_id : ℕ) → ScheduleCreate
    → RuntimeConfig
    → Db
    → Db × Response Schedule
accept_schedule cron checked_at now schedule_id request c db =
    let max_retries = effective request.max_retries c.default_max_retries in
    let timeout = effective request.timeout_seconds c.default_timeout_seconds in
    if ltb c.max_timeout_seconds timeout
    then (db, http_exception 422)
    else elim (cron request.cron_expression checked_at) [
      | none ↦ (db, http_exception 422)
      | some _ ↦
          schedule_created (create_schedule cron now schedule_id request max_retries timeout db)
    ]

abbrev pub schedule_updated : Db × Result (Option Schedule) → Db × Response Schedule
schedule_updated (db, ok s) = (db, or_404 s)
schedule_updated (db, raise _) = (db, internal_error)

unfoldable pub patch_schedule :
    Cron → (between : Db → Db) → (now schedule_id : ℕ) → Bool → Db → Db × Response Schedule
patch_schedule cron between now schedule_id enabled db =
    schedule_updated (set_schedule_enabled cron between now schedule_id enabled db)

unfoldable pub remove_schedule : (schedule_id : ℕ) → Db → Db × Response Unit
remove_schedule schedule_id db =
    let (db', found) = delete_schedule schedule_id db in
    (db', if found then reply 204 tt else http_exception 404)

-- What a handler makes of the process's configuration, and its answer.
abbrev pub replaced : RuntimeConfig → RuntimeConfig → RuntimeConfig × Response RuntimeConfig
replaced store config =
    let (store', seen) = store_replace store config in
    (store', elim seen [ none ↦ internal_error | some c ↦ reply 200 c ])

-- `GET /config`
unfoldable pub read_config : RuntimeConfig → Db → RuntimeConfig × Response RuntimeConfig
read_config store db = elim (get_runtime_config db) [
  | ok config ↦ replaced store config
  | raise _ ↦ (store, internal_error)
]

-- `PATCH /config`; the store of the process is the one of its pool. `pool.reconcile()` is not
-- reached when `replace` raises.
abbrev pub reconciled :
    Pool → RuntimeConfig × Response RuntimeConfig → Pool × Response RuntimeConfig
reconciled pool (store, reply code c) = (reconcile (record pool { config = store }), reply code c)
reconciled pool (store, answer) = (record pool { config = store }, answer)

abbrev pub config_updated :
    Pool → Db × Option (Result RuntimeConfig) → (Db × Pool) × Response RuntimeConfig
config_updated pool (db, some (ok updated)) =
    let (pool', answer) = reconciled pool (replaced pool.config updated) in ((db, pool'), answer)
config_updated pool (db, _) = ((db, pool), internal_error)

unfoldable pub update_config : RuntimeConfigPatch → Pool → Db → (Db × Pool) × Response RuntimeConfig
update_config patch pool db = config_updated pool (patch_runtime_config patch db)
