-- ===== src/Repository/Create/Idempotency.antt =====
-- Submitting a job under an idempotency key.
use digitalocean.Base.{
  ℕ, ◌≡◌, refl, Bool, true, false, Option, some, [], ◌∷◌, ◌++◌, ◌==◌, is_some, is_value,
  if◌then◌else◌, arith, Option-cases, Bool-cases, inl, inr, ◌∙◌,
}
use digitalocean.Models.{Job, JobCreate}
use digitalocean.Sql.{find}
use digitalocean.Sql.Update.{find-append, find-stronger}
use digitalocean.Repository.Store.{
  Db, Result, ok, raise, idempotency_conflict, get_job, get_job_by_idempotency_key, insert_job,
  clashes,
}
use digitalocean.Repository.Create.{
  Digest, job_request_fingerprint, new_row, reuse, submit, create_job,
}

abbrev unchanged : Db → Db
unchanged db = db

-- The job that a successful insert under a key adds is the one that the key finds.
insert_job-by_key :
    (key : ℕ) (row : Job) (db : Db) {db' : Db}
    → row.idempotency_key ≡ some key
    → insert_job row db ≡ some db'
    → get_job_by_idempotency_key key db' ≡ some row
unfolding insert_job get_job_by_idempotency_key
insert_job-by_key key row db {db'} named e =
    elim (Bool-cases (is_some (find (clashes row) db.jobs))) [
      | inl clash ↦ absurd (ground arith)
      | inr free ↦
          let absent =
            find-stronger (clashes row) (λ j. is_value j.idempotency_key key) db.jobs
              (λ j h. rw named (ground arith)) free in
          let appended : db' ≡ record db { jobs = db.jobs ++ row ∷ [] } = ground arith in
          rw appended (
            find-append (λ j. is_value j.idempotency_key key) db.jobs row
            ∙ rw (absent, named) (ground arith))
    ]

-- The job that a successful insert adds is the one that its identifier finds.
pub insert_job-by_id :
    (row : Job) (db : Db) {db' : Db} → insert_job row db ≡ some db' → get_job row.id db' ≡ some row
unfolding insert_job get_job
insert_job-by_id row db {db'} e = elim (Bool-cases (is_some (find (clashes row) db.jobs))) [
  | inl clash ↦ absurd (ground arith)
  | inr free ↦
      let absent =
        find-stronger (clashes row) (λ j. j.id == row.id) db.jobs (λ j h. ground arith) free in
      let appended : db' ≡ record db { jobs = db.jobs ++ row ∷ [] } = ground arith in
      rw appended (find-append (λ j. j.id == row.id) db.jobs row ∙ rw absent (ground arith))
]

fingerprint_of : (o : Option ℕ) (n : ℕ) → is_value o n ≡ true → o ≡ some n
fingerprint_of o n e = ground arith

-- The key finds a job with a fingerprint.
abbrev Keyed : (key fingerprint : ℕ) → Db → Job → Type 0
Keyed key fingerprint db j =
    (get_job_by_idempotency_key key db ≡ some j) × (j.request_fingerprint ≡ some fingerprint)

reuse-Keyed :
    (key fingerprint : ℕ) (db db' : Db) (existing j : Job)
    → get_job_by_idempotency_key key db ≡ some existing
    → reuse fingerprint db existing ≡ (db', ok (some j))
    → Keyed key fingerprint db' j
reuse-Keyed key fingerprint db db' existing j found e =
    elim (Bool-cases (is_value existing.request_fingerprint fingerprint)) [
      | inl same ↦
          let answer : (db, ok (some existing)) ≡ (db', ok (some j)) = rw same at e in
          let same_db : db ≡ db' = cc in
          let same_job : existing ≡ j = cc in
          rw (← same_db, ← same_job)
            (found, fingerprint_of existing.request_fingerprint fingerprint same)
      | inr other ↦
          absurd (
            let answer : (db, raise idempotency_conflict) ≡ (db', ok (some j)) = rw other at e in
            cc)
    ]

-- A submission under a key that was answered leaves a job under that key.
submit-Keyed :
    (key fingerprint : ℕ) (row : Job) (db db' : Db) (j : Job)
    → (key == 0) ≡ false
    → row.idempotency_key ≡ some key
    → row.request_fingerprint ≡ some fingerprint
    → submit unchanged (some key) fingerprint row db ≡ (db', ok (some j))
    → Keyed key fingerprint db' j
unfolding submit
submit-Keyed key fingerprint row db db' j given named printed e =
    elim (Option-cases (insert_job row db)) [
      | inr (db1, inserted) ↦
          let answer : (db1, ok (get_job row.id db1)) ≡ (db', ok (some j)) =
            rw (inserted, submit) at e in
          let same_db : db1 ≡ db' = cc in
          let same_job : row ≡ j = cc (insert_job-by_id row db inserted) in
          rw (← same_db, ← same_job) (insert_job-by_key key row db named inserted, printed)
      | inl clash ↦ elim (Option-cases (get_job_by_idempotency_key key db)) [
        | inl gone ↦ absurd (
            let r : (db, raise idempotency_conflict) ≡ (db', ok (some j)) =
              rw (clash, submit, given, gone) at e in
            cc)
        | inr (existing, found) ↦
            reuse-Keyed key fingerprint db db' existing j found
              (rw (clash, submit, given, found) at e)
      ]
    ]

-- What a later submission under the key is told.
abbrev pub retold : (same : Bool) → Db → Job → Db × Result (Option Job)
retold same db j = if same then (db, ok (some j)) else (db, raise idempotency_conflict)

module _ (digest : Digest) (key : ℕ) (given : (key == 0) ≡ false) where
  create_job-Keyed :
      (before : Db → Db) (now job_id : ℕ) (request : JobCreate) (max_retries timeout : ℕ)
      (db db' : Db) (j : Job)
      → create_job digest before unchanged now job_id request max_retries timeout (some key) db
        ≡ (db', ok (some j))
      → Keyed key (job_request_fingerprint digest request max_retries timeout) db' j
  unfolding create_job
  create_job-Keyed before now job_id request max_retries timeout db db' j e =
      let fingerprint = job_request_fingerprint digest request max_retries timeout in
      elim (Option-cases (get_job_by_idempotency_key key db)) [
        | inl new ↦
            submit-Keyed key fingerprint
              (new_row now job_id (some key) (some fingerprint) request max_retries timeout)
              (before db) db' j given refl refl (rw (given, new, create_job) at e)
        | inr (existing, found) ↦
            reuse-Keyed key fingerprint db db' existing j found (rw (given, found, create_job) at e)
      ]

  create_job-found :
      (before after : Db → Db) (now job_id : ℕ) (request : JobCreate) (max_retries timeout : ℕ)
      (fingerprint : ℕ) (db : Db) (j : Job)
      → Keyed key fingerprint db j
      → create_job digest before after now job_id request max_retries timeout (some key) db
        ≡ retold (fingerprint == job_request_fingerprint digest request max_retries timeout) db j
  unfolding create_job
  create_job-found before after now job_id request max_retries timeout fingerprint db j
        (found, printed) =
      rw (given, found, create_job, printed)

  -- When a submission under a key that is not empty is answered with a job, and no other connection
  -- commits between its insert and its last lookup, then a submission under the same key on the
  -- tables it left changes nothing: it answers the same job if the two fingerprints agree and
  -- raises the conflict if they differ, whatever the others commit during the second call.
  pub create_job_idempotent :
      (before before' after' : Db → Db) (now now' job_id job_id' : ℕ) (request request' : JobCreate)
      (max_retries max_retries' timeout timeout' : ℕ) (db db' : Db) (j : Job)
      → create_job digest before unchanged now job_id request max_retries timeout (some key) db
        ≡ (db', ok (some j))
      → create_job digest before' after' now' job_id' request' max_retries' timeout' (some key) db'
        ≡ retold
            (job_request_fingerprint digest request max_retries timeout
              == job_request_fingerprint digest request' max_retries' timeout')
            db'
            j
  create_job_idempotent before before' after' now now' job_id job_id' request request' max_retries
        max_retries' timeout timeout' db db' j e =
      create_job-found before' after' now' job_id' request' max_retries' timeout' _ db' j
        (create_job-Keyed before now job_id request max_retries timeout db db' j e)
