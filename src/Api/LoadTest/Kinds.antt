-- ===== src/Api/LoadTest/Kinds.antt =====
-- What the handler makes of the jobs of a load test, and how many there are.
use digitalocean.Base.{
  Bool, ◌++◌, is_some, some_inj, Bool-cases, Option-cases, inl, inr, ℕ, zero, suc, ◌+◌, ◌≡◌, refl,
  ℤ, String, true, List, [], ◌∷◌, Option, none, some, leb, length, if◌then◌else◌, map, arith, ap,
  ◌∙◌,
}
use digitalocean.Models.{Job, queued, is_status, JobCreate, RuntimeConfig, obj, bool, field}
use digitalocean.Repository.Store.{Db, ok, clashes, insert_job}
use digitalocean.Repository.Depth.{counts}
use digitalocean.Sql.{find, count}
use digitalocean.Repository.Create.{new_row, batch_rows, insert_jobs, create_jobs_batch}
use digitalocean.Config.{in_bounds, view}
use digitalocean.Worker.{Outcome, returned, raised}
use digitalocean.Handler.{Python, is_text, get, to_int, to_float, attempt_field, execute_job}
use digitalocean.Api.{reply}
use digitalocean.Api.LoadTest.{
  echo_payload, load_test_payload, is_load_test, load_test_jobs, load_test_created,
  create_load_test,
}

-- The answer to a job that fails a number of times.
abbrev pub fails : Python → (failures attempt_no : ℕ) → ℕ × Outcome
fails python failures attempt_no =
    if leb attempt_no failures
    then (0, raised (python.failed_on_attempt attempt_no))
    else (0, returned (obj (field "recovered" (bool true) (attempt_field attempt_no))))

-- On every attempt the handler answers a payload of kind echo with itself, raises for one of kind
-- flaky on the first attempt only and for one of kind poison on the first 9999 attempts, where it
-- answers later ones as recovered, and sleeps two seconds for one of kind timeout.
pub load_test_payload-kinds :
    (python : Python) (index attempt_no : ℕ)
    → (execute_job python (load_test_payload "echo" index) attempt_no
        ≡ (0, returned (obj (field "echo" (obj (echo_payload index)) (attempt_field attempt_no)))))
      × (execute_job python (load_test_payload "flaky" index) attempt_no
          ≡ fails python 1 attempt_no)
      × (execute_job python (load_test_payload "poison" index) attempt_no
          ≡ fails python 9999 attempt_no)
      × ((execute_job python (load_test_payload "timeout" index) attempt_no).0 ≡ 2000000)
unfolding load_test_payload execute_job get is_text to_int to_float
load_test_payload-kinds python index attempt_no = (refl, ground arith, ground arith, refl)

length-load_test_jobs :
    (count first : ℕ) (kind : String) (priority : ℤ)
    → length (load_test_jobs count first kind priority) ≡ count
unfolding load_test_jobs
length-load_test_jobs zero first kind priority = refl
length-load_test_jobs (suc count) first kind priority =
    omega (arith, length-load_test_jobs count (first + 1) kind priority)

length-batch_rows :
    (now : ℕ) (uuid : ℕ → ℕ) (max_retries timeout : ℕ) (requests : List JobCreate) (n : ℕ)
    → length (map (λ j. j.id) (batch_rows now uuid max_retries timeout requests n))
      ≡ length requests
unfolding batch_rows
length-batch_rows now uuid max_retries timeout [] n = refl
length-batch_rows now uuid max_retries timeout (r ∷ requests) n =
    omega (arith, length-batch_rows now uuid max_retries timeout requests (n + 1))

count-append :
    (p : Job → Bool) (rows : List Job) (row : Job)
    → count p (rows ++ row ∷ []) ≡ count p rows + (if p row then 1 else 0)
count-append p [] row = ground arith
count-append p (r ∷ rows) row = omega (arith, count-append p rows row)

insert_job-queued :
    (row : Job) (db : Db) {db' : Db}
    → row.status ≡ queued
    → insert_job row db ≡ some db'
    → counts queued db'.jobs ≡ counts queued db.jobs + 1
unfolding insert_job
insert_job-queued row db {db'} waits e = elim (Bool-cases (is_some (find (clashes row) db.jobs))) [
  | inl clash ↦ absurd (ground arith)
  | inr free ↦
      let appended : db' ≡ record db { jobs = db.jobs ++ row ∷ [] } = ground arith in
      let one = count-append (λ j. is_status j.status queued) db.jobs row in
      rw appended (one ∙ rw waits refl)
]

insert_jobs-queued :
    (now : ℕ) (uuid : ℕ → ℕ) (max_retries timeout : ℕ) (requests : List JobCreate) (n : ℕ) (db : Db)
    {db' : Db}
    → insert_jobs (batch_rows now uuid max_retries timeout requests n) db ≡ some db'
    → counts queued db'.jobs ≡ counts queued db.jobs + length requests
unfolding batch_rows insert_jobs
insert_jobs-queued now uuid max_retries timeout [] n db e = rw (← some_inj e) (omega arith)
insert_jobs-queued now uuid max_retries timeout (r ∷ requests) n db {db'} e =
    let row = new_row now (uuid n) none none r max_retries timeout in
    elim (Option-cases (insert_job row db)) [
      | inl clash ↦
          absurd
            (let bad : ◌≡◌ {A = Option Db} none (some db') = rw (clash, insert_jobs) at e in cc)
      | inr (db1, inserted) ↦
          let one = insert_job-queued row db refl inserted in
          let rest =
            insert_jobs-queued now uuid max_retries timeout requests (n + 1) db1 {db' = db'}
              (rw (inserted, insert_jobs) at e) in
          omega arith
    ]

create_jobs_batch-inserted :
    (now : ℕ) (uuid : ℕ → ℕ) (r : JobCreate) (requests : List JobCreate) (max_retries timeout : ℕ)
    (db db' : Db)
    → insert_jobs (batch_rows now uuid max_retries timeout (r ∷ requests) 0) db ≡ some db'
    → create_jobs_batch now uuid (r ∷ requests) max_retries timeout db
      ≡ (db', ok (map (λ j. j.id) (batch_rows now uuid max_retries timeout (r ∷ requests) 0)))
unfolding create_jobs_batch
create_jobs_batch-inserted now uuid r requests max_retries timeout db db' e =
    rw (create_jobs_batch, e) refl

-- When the configuration of the process and the request are within their bounds and the rows of the
-- batch can be inserted, a load test of a given size answers 202 with that size and the identifiers
-- of the rows, on the tables with the rows, and the number of queued jobs has grown by the size.
pub create_load_test_lem :
    (now : ℕ) (uuid : ℕ → ℕ) (size : ℕ) (kind : String) (priority : ℤ) (store : RuntimeConfig)
    (db db' : Db)
    → in_bounds store ≡ true
    → is_load_test size kind priority ≡ true
    → insert_jobs
        (batch_rows now uuid store.default_max_retries store.default_timeout_seconds
          (load_test_jobs size 0 kind priority)
          0)
        db
      ≡ some db'
    → let rows =
        batch_rows now uuid store.default_max_retries store.default_timeout_seconds
          (load_test_jobs size 0 kind priority)
          0 in
      (create_load_test now uuid size kind priority store db
        ≡ (db', reply 202 (size, map (λ j. j.id) rows)))
      × (counts queued db'.jobs ≡ counts queued db.jobs + size)
unfolding create_load_test view load_test_jobs
create_load_test_lem now uuid zero kind priority store db db' v w e = absurd (ground arith)
create_load_test_lem now uuid (suc size) kind priority store db db' v w e =
    let requests = load_test_jobs (suc size) 0 kind priority in
    let named =
      length-batch_rows now uuid store.default_max_retries store.default_timeout_seconds requests 0
      ∙ length-load_test_jobs (suc size) 0 kind priority in
    let more =
      insert_jobs-queued now uuid store.default_max_retries store.default_timeout_seconds requests 0
        db {db' = db'} e in
    let size_of = length-load_test_jobs (suc size) 0 kind priority in
    let rows =
      batch_rows now uuid store.default_max_retries store.default_timeout_seconds requests 0 in
    let batch =
      create_jobs_batch-inserted now uuid _ (load_test_jobs size 1 kind priority)
        store.default_max_retries store.default_timeout_seconds db db' e in
    (
      rw (w, v)
          (ap load_test_created batch
            ∙ ap (λ n. (db', reply 202 (n, map (λ (j : Job). j.id) rows))) named),
      omega arith,
    )
