-- ===== src/Api/Limits.antt =====
-- The limits of submitted jobs, and the configuration that they come from.
use digitalocean.Base.{
  ℕ, ◌≤◌, ◌≡◌, refl, true, false, Option, none, some, ltb, if◌then◌else◌, arith, subst, ap, ◌∙◌,
  ◌∙◌,
}
use digitalocean.Models.{Job, JobCreate, queued, RuntimeConfig, RuntimeConfigPatch}
use digitalocean.Repository.Store.{Db, ok, get_job, insert_job}
use digitalocean.Repository.Create.{Digest, job_request_fingerprint, new_row, submit, create_job}
use digitalocean.Repository.Create.Idempotency.{insert_job-by_id}
use digitalocean.Config.{
  in_bounds, overlay, clamp, view, store_replace, merge_runtime_config, get_runtime_config,
  patch_runtime_config,
}
use digitalocean.Config.Merge.{patch_in_bounds, merge_runtime_config_total, validate-some}
use digitalocean.Worker.Pool.{Pool, reconcile}
use digitalocean.Api.{
  replaced, reconciled, config_updated, reply, http_exception, is_job_create, effective,
  job_created, accept_job, post_job, read_config, update_config,
}

abbrev quiet : Db → Db
quiet db = db

-- The row that a submission without a key asks for.
abbrev pub accepted_row : Digest → (now job_id : ℕ) → JobCreate → RuntimeConfig → Job
accepted_row digest now job_id request c =
    let max_retries = effective request.max_retries c.default_max_retries in
    let timeout = effective request.timeout_seconds c.default_timeout_seconds in
    new_row now job_id none (some (job_request_fingerprint digest request max_retries timeout))
      request max_retries timeout

create_job-fresh :
    (digest : Digest) (now job_id : ℕ) (request : JobCreate) (max_retries timeout : ℕ) (db db' : Db)
    → let fingerprint = job_request_fingerprint digest request max_retries timeout in
      let row = new_row now job_id none (some fingerprint) request max_retries timeout in
      insert_job row db ≡ some db'
      → create_job digest quiet quiet now job_id request max_retries timeout none db
        ≡ (db', ok (some row))
unfolding create_job submit
create_job-fresh digest now job_id request max_retries timeout db db' e =
    let fingerprint = job_request_fingerprint digest request max_retries timeout in
    let row = new_row now job_id none (some fingerprint) request max_retries timeout in
    rw (e, create_job, submit) (ap (λ o. (db', ok o)) (insert_job-by_id row db e))

-- Past the tests in front of the handler.
post_job-accept_job :
    (digest : Digest) (before after : Db → Db) (now job_id : ℕ) (request : JobCreate)
    (key : Option ℕ) (c : RuntimeConfig) (db : Db)
    → in_bounds c ≡ true
    → is_job_create request ≡ true
    → post_job digest before after now job_id request key c db
      ≡ accept_job digest before after now job_id request key c db
unfolding post_job view
post_job-accept_job digest before after now job_id request key c db v w = rw (w, post_job, v) refl

-- When the configuration of the process is within its bounds, the payload of the request is a JSON
-- object and its numbers are within their bounds, the request has no key, the row that it asks for
-- can be inserted, and no other connection commits meanwhile, then a submission whose effective
-- timeout exceeds the configured maximum answers 422 and changes nothing, and any other answers 202
-- with the identifier and the status queued on the tables with the new row; the identifier finds
-- that row there, it has at most 20 retries, and its timeout is positive.
pub post_job_lem :
    (digest : Digest) (now job_id : ℕ) (request : JobCreate) (store : RuntimeConfig) (db db' : Db)
    → in_bounds store ≡ true
    → is_job_create request ≡ true
    → insert_job (accepted_row digest now job_id request store) db ≡ some db'
    → let row = accepted_row digest now job_id request store in
      (post_job digest quiet quiet now job_id request none store db ≡ (
        if ltb store.max_timeout_seconds row.timeout_seconds
        then (db, http_exception 422)
        else (db', reply 202 (job_id, queued))))
      × (get_job job_id db' ≡ some row)
      × (row.max_retries ≤ 20)
      × (1 ≤ row.timeout_seconds)
unfolding accept_job in_bounds
post_job_lem digest now job_id request store db db' v w e =
    let retries = effective request.max_retries store.default_max_retries in
    let timeout = effective request.timeout_seconds store.default_timeout_seconds in
    let fresh = create_job-fresh digest now job_id request retries timeout db db' e in
    (
      post_job-accept_job digest quiet quiet now job_id request none store db v w ∙ (rw fresh refl),
      insert_job-by_id (accepted_row digest now job_id request store) db e,
      ground arith,
      ground arith,
    )

-- When the configuration of the process is the result of a patch, a request within its bounds that
-- leaves the timeout open is not refused for its timeout: it is submitted with the default timeout
-- of the configuration, with or without a key and whatever the others commit.
pub post_job-patched :
    (digest : Digest) (before after : Db → Db) (now job_id : ℕ) (request : JobCreate)
    (key : Option ℕ) (c d : RuntimeConfig) (p : RuntimeConfigPatch) (db : Db)
    → merge_runtime_config c p ≡ some d
    → is_job_create request ≡ true
    → request.timeout_seconds ≡ none
    → post_job digest before after now job_id request key d db
      ≡ job_created (
          create_job digest before after now job_id request
            (effective request.max_retries d.default_max_retries)
            d.default_timeout_seconds
            key
            db)
unfolding accept_job merge_runtime_config
post_job-patched digest before after now job_id request key c d p db e w left_open =
    let (same, good) = validate-some (clamp (overlay c p)) d e in
    let low : ltb d.max_timeout_seconds d.default_timeout_seconds ≡ false =
      subst (λ x. ltb x.max_timeout_seconds x.default_timeout_seconds ≡ false) same
        (ground arith) in
    post_job-accept_job digest before after now job_id request key d db good w
    ∙ rw (left_open, low) refl

replaced-valid :
    (store d : RuntimeConfig) → in_bounds d ≡ true → replaced store d ≡ (d, reply 200 d)
unfolding store_replace view
replaced-valid store d v = rw v refl

config_updated-valid :
    (pool : Pool) (d : RuntimeConfig) (db : Db)
    → in_bounds d ≡ true
    → config_updated pool (db, some (ok d))
      ≡ ((db, reconcile (record pool { config = d })), reply 200 d)
unfolding store_replace view
config_updated-valid pool d db v = rw (config_updated, reconciled, replaced, v) refl

-- The threads change, and the configuration does not.
reconcile-config : (pool : Pool) → (reconcile pool).config ≡ pool.config
unfolding reconcile
reconcile-config pool = ground arith

-- When the stored configuration and the patch are within their bounds, PATCH /config answers 200
-- with the patched configuration, puts it into the store of its process and reconciles the pool of
-- that process, and a GET /config of any process on the tables that it leaves answers it and puts
-- it into the store of that process.
pub update_config-read_config :
    (patch : RuntimeConfigPatch) (pool : Pool) (other c : RuntimeConfig) (db : Db)
    → db.runtime_config ≡ some c
    → in_bounds c ≡ true
    → patch_in_bounds patch ≡ true
    → let d = clamp (overlay c patch) in
      let updated = update_config patch pool db in
      (updated.1 ≡ reply 200 d)
      × (updated.0.1 ≡ reconcile (record pool { config = d }))
      × (updated.0.1.config ≡ d)
      × (read_config other updated.0.0 ≡ (d, reply 200 d))
unfolding update_config read_config get_runtime_config patch_runtime_config
update_config-read_config patch pool other c db stored v w =
    let (merge, good, limits) = merge_runtime_config_total c patch v w in
    let d = clamp (overlay c patch) in
    let done : update_config patch pool db ≡ (
      (record db { runtime_config = some d }, reconcile (record pool { config = d })),
      reply 200 d,
    ) =
      rw (stored, merge)
        (config_updated-valid pool d (record db { runtime_config = some d }) good) in
    rw done (refl, refl, reconcile-config (record pool { config = d }), replaced-valid other d good)
