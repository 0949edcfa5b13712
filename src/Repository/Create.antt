-- ===== src/Repository/Create.antt =====
-- `create_job` and `create_jobs_batch` of app/repository.py. The time, the fresh UUIDs and the
-- digest of a request are arguments. What other connections commit between two transactions of
-- one call is an argument too, a function on the tables.
pub mod Idempotency
pub mod EmptyKey
use digitalocean.Base.{
  ℕ, ◌+◌, Bool, false, not, ◌&&◌, Option, none, some, List, [], ◌∷◌, ◌==◌, is_same, is_value,
  or_else, if◌then◌else◌, map,
}
use digitalocean.Models.{Job, JobCreate, queued}
use digitalocean.Repository.Store.{
  Db, Result, ok, raise, integrity_error, idempotency_conflict, get_job, get_job_by_idempotency_key,
  insert_job,
}

-- `job_request_fingerprint`: the digest (SHA-256) of the request with its effective limits.
abbrev pub Digest : Type 0
Digest = JobCreate × ℕ × ℕ → ℕ

abbrev pub job_request_fingerprint : Digest → JobCreate → (max_retries timeout : ℕ) → ℕ
job_request_fingerprint digest request max_retries timeout = digest (request, max_retries, timeout)

-- `if idempotency_key`: the empty text, number 0, counts as no key.
abbrev pub is_given : Option ℕ → Bool
is_given none = false
is_given (some key) = not (key == 0)

-- The row of a new job.
abbrev pub new_row :
    (now job_id : ℕ)
    → (idempotency_key fingerprint : Option ℕ) → JobCreate
    → (max_retries timeout : ℕ) → Job
new_row now job_id key fingerprint request max_retries timeout = record {
  id = job_id;
  idempotency_key = key;
  request_fingerprint = fingerprint;
  schedule_id = none;
  scheduled_for = none;
  status = queued;
  payload = request.payload;
  result = none;
  priority = request.priority;
  max_retries = max_retries;
  timeout_seconds = timeout;
  attempt_count = 0;
  last_error = none;
  run_at = or_else request.run_at now;
  locked_by = none;
  locked_at = none;
  created_at = now;
  updated_at = now;
  finished_at = none;
}

-- `get_job_by_idempotency_key` where the key may be missing.
abbrev pub by_key : Option ℕ → Db → Option Job
by_key none db = none
by_key (some key) db = get_job_by_idempotency_key key db

-- The answer for a job that holds the key already.
abbrev pub reuse : ℕ → Db → Job → Db × Result (Option Job)
reuse fingerprint db existing =
    if is_value existing.request_fingerprint fingerprint
    then (db, ok (some existing))
    else (db, raise idempotency_conflict)

-- The handler of IntegrityError: `db` is what the next lookup sees.
abbrev pub after_clash : Option ℕ → ℕ → Db → Db × Result (Option Job)
after_clash key fingerprint db =
    if is_given key
    then elim (by_key key db) [
      | none ↦ (db, raise idempotency_conflict)
      | some existing ↦ reuse fingerprint db existing
    ]
    else (db, raise integrity_error)

-- The insert and the lookups after it.
unfoldable pub submit : (Db → Db) → Option ℕ → ℕ → Job → Db → Db × Result (Option Job)
submit others key fingerprint row db = elim (insert_job row db) [
  | some db' ↦ (others db', ok (get_job row.id (others db')))
  | none ↦ after_clash key fingerprint (others db)
]

-- The whole call: `before` is what others commit between the first lookup and the insert, and
-- `after` what they commit between the insert and the last lookup.
unfoldable pub create_job :
    Digest
    → (before after : Db → Db) → (now job_id : ℕ) → JobCreate
    → (max_retries timeout : ℕ) → (idempotency_key : Option ℕ) → Db
    → Db × Result (Option Job)
create_job digest before after now job_id request max_retries timeout key db =
    let fingerprint = job_request_fingerprint digest request max_retries timeout in
    let row = new_row now job_id key (some fingerprint) request max_retries timeout in
    elim (if is_given key then by_key key db else none) [
      | some existing ↦ reuse fingerprint db existing
      | none ↦ submit after key fingerprint row (before db)
    ]

-- `executemany`: the first row that clashes fails the transaction.
unfoldable pub insert_jobs : List Job → Db → Option Db
insert_jobs [] db = some db
insert_jobs (row ∷ rows) db = elim (insert_job row db) [
  | none ↦ none
  | some db' ↦ insert_jobs rows db'
]

-- The rows of a batch; `uuid n` is the identifier drawn for the n-th request.
unfoldable pub batch_rows : ℕ → (ℕ → ℕ) → (max_retries timeout : ℕ) → List JobCreate → ℕ → List Job
batch_rows now uuid max_retries timeout [] n = []
batch_rows now uuid max_retries timeout (request ∷ requests) n =
    new_row now (uuid n) none none request max_retries timeout
    ∷ batch_rows now uuid max_retries timeout requests (n + 1)

unfoldable pub create_jobs_batch :
    ℕ → (ℕ → ℕ) → List JobCreate → (max_retries timeout : ℕ) → Db → Db × Result (List ℕ)
create_jobs_batch now uuid [] max_retries timeout db = (db, ok [])
create_jobs_batch now uuid requests max_retries timeout db =
    let rows = batch_rows now uuid max_retries timeout requests 0 in
    elim (insert_jobs rows db) [
      | none ↦ (db, raise integrity_error)
      | some db' ↦ (db', ok (map (λ j. j.id) rows))
    ]
