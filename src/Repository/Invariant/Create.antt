-- ===== src/Repository/Invariant/Create.antt =====
-- Submissions keep the tables consistent, whatever other connections commit in between.
use digitalocean.Base.{
  ℕ, ◌+◌, ◌≡◌, Option, none, some, List, [], ◌∷◌, if◌then◌else◌, arith, Option-cases, inl, inr,
  some_inj, subst,
}
use digitalocean.Models.{Job, JobCreate}
use digitalocean.Repository.Store.{Db, insert_job}
use digitalocean.Repository.Create.{
  Digest, job_request_fingerprint, is_given, new_row, by_key, reuse, after_clash, submit,
  create_job, insert_jobs, batch_rows, create_jobs_batch,
}
use digitalocean.Repository.Invariant.{IsValid}
use digitalocean.Repository.Invariant.Insert.{IsNew, insert_job-IsValid}

-- Other connections keep the tables consistent.
abbrev pub Keeps : (Db → Db) → Type 0
Keeps others = (db : Db) → IsValid db → IsValid (others db)

reuse-db : (fingerprint : ℕ) (db : Db) (j : Job) → (reuse fingerprint db j).0 ≡ db
reuse-db fingerprint db j = ground arith

after_clash-db :
    (key : Option ℕ) (fingerprint : ℕ) (db : Db) → (after_clash key fingerprint db).0 ≡ db
after_clash-db key fingerprint db = ground arith

submit-IsValid :
    (others : Db → Db) (key : Option ℕ) (fingerprint : ℕ) (row : Job) (db : Db)
    → Keeps others
    → IsNew row
    → IsValid db
    → IsValid (submit others key fingerprint row db).0
unfolding submit
submit-IsValid others key fingerprint row db keeps new v = elim (Option-cases (insert_job row db)) [
  | inl clash ↦ rw (clash, submit) (rw (after_clash-db key fingerprint (others db)) (keeps db v))
  | inr (db', e) ↦ rw (e, submit) (keeps db' (insert_job-IsValid row db new v e))
]

-- When the commits of the others in between keep consistent tables consistent, `create_job` keeps
-- consistent tables consistent on every branch: a reused job, a conflict, an integrity error and an
-- insert.
pub create_job-IsValid :
    (digest : Digest) (before after : Db → Db) (now job_id : ℕ) (request : JobCreate)
    (max_retries timeout : ℕ) (key : Option ℕ) (db : Db)
    → Keeps before
    → Keeps after
    → IsValid db
    → IsValid (create_job digest before after now job_id request max_retries timeout key db).0
unfolding create_job
create_job-IsValid digest before after now job_id request max_retries timeout key db b a v =
    let fingerprint = job_request_fingerprint digest request max_retries timeout in
    let row = new_row now job_id key (some fingerprint) request max_retries timeout in
    elim (Option-cases (if is_given key then by_key key db else none)) [
      | inl new ↦
          rw (new, create_job)
            (submit-IsValid after key fingerprint row (before db) a (ground arith) (b db v))
      | inr (existing, e) ↦ rw (e, create_job) (rw (reuse-db fingerprint db existing) v)
    ]

insert_jobs-IsValid :
    (now : ℕ) (uuid : ℕ → ℕ) (max_retries timeout : ℕ) (requests : List JobCreate) (n : ℕ) (db : Db)
    {db' : Db}
    → IsValid db
    → insert_jobs (batch_rows now uuid max_retries timeout requests n) db ≡ some db'
    → IsValid db'
unfolding insert_jobs batch_rows
insert_jobs-IsValid now uuid max_retries timeout [] n db {db'} v e = subst IsValid (some_inj e) v
insert_jobs-IsValid now uuid max_retries timeout (request ∷ requests) n db {db'} v e =
    let row = new_row now (uuid n) none none request max_retries timeout in
    elim (Option-cases (insert_job row db)) [
      | inl clash ↦
          absurd (let r : ◌≡◌ {A = Option Db} none (some db') = rw (clash, insert_jobs) at e in cc)
      | inr (db1, first) ↦
          insert_jobs-IsValid now uuid max_retries timeout requests (n + 1) db1
            (insert_job-IsValid row db (ground arith) v first) (rw (first, insert_jobs) at e)
    ]

pub create_jobs_batch-IsValid :
    (now : ℕ) (uuid : ℕ → ℕ) (requests : List JobCreate) (max_retries timeout : ℕ) (db : Db)
    → IsValid db
    → IsValid (create_jobs_batch now uuid requests max_retries timeout db).0
unfolding create_jobs_batch
create_jobs_batch-IsValid now uuid [] max_retries timeout db v = v
create_jobs_batch-IsValid now uuid (request ∷ requests) max_retries timeout db v =
    let rows = batch_rows now uuid max_retries timeout (request ∷ requests) 0 in
    elim (Option-cases (insert_jobs rows db)) [
      | inl clash ↦ rw (clash, create_jobs_batch) v
      | inr (db', e) ↦
          rw (e, create_jobs_batch)
            (insert_jobs-IsValid now uuid max_retries timeout (request ∷ requests) 0 db v e)
    ]
