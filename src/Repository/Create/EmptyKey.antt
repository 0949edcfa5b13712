-- ===== src/Repository/Create/EmptyKey.antt =====
-- Submitting a job under the empty idempotency key.
use digitalocean.Base.{ℕ, ◌≡◌, refl, none, some, is_some, is_value, arith, Bool-cases, inl, inr}
use digitalocean.Models.{Job, JobCreate}
use digitalocean.Sql.{find}
use digitalocean.Sql.Update.{find-stronger}
use digitalocean.Repository.Store.{
  Db, raise, integrity_error, get_job_by_idempotency_key, insert_job, clashes,
}
use digitalocean.Repository.Create.{Digest, job_request_fingerprint, new_row, submit, create_job}

-- A row whose key is taken is not inserted.
pub insert_job-taken :
    (key : ℕ) (row j : Job) (db : Db)
    → row.idempotency_key ≡ some key
    → get_job_by_idempotency_key key db ≡ some j
    → insert_job row db ≡ none
unfolding insert_job get_job_by_idempotency_key
insert_job-taken key row j db named found =
    elim (Bool-cases (is_some (find (clashes row) db.jobs))) [
      | inl clash ↦ ground arith
      | inr free ↦ absurd (
          let absent =
            find-stronger (clashes row) (λ x. is_value x.idempotency_key key) db.jobs
              (λ x h. rw named (ground arith)) free in
          ground arith)
    ]

-- When, at the time of the insert, a job holds the empty idempotency key, a submission under the
-- empty key inserts nothing and raises the integrity error of the index, whatever its fingerprint
-- is and whatever the others commit.
pub create_job-empty_key :
    (digest : Digest) (before after : Db → Db) (now job_id : ℕ) (request : JobCreate)
    (max_retries timeout : ℕ) (db : Db) (j : Job)
    → get_job_by_idempotency_key 0 (before db) ≡ some j
    → create_job digest before after now job_id request max_retries timeout (some 0) db
      ≡ (after (before db), raise integrity_error)
unfolding create_job submit
create_job-empty_key digest before after now job_id request max_retries timeout db j found =
    let fingerprint = job_request_fingerprint digest request max_retries timeout in
    let row = new_row now job_id (some 0) (some fingerprint) request max_retries timeout in
    let clash = insert_job-taken 0 row j (before db) refl found in
    rw (create_job, submit, clash) refl
