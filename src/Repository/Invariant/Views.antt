-- ===== src/Repository/Invariant/Views.antt =====
-- What the statements of app/repository.py do to the row, the log and the dead letter of a job.
use mathlib.Core.Option
use digitalocean.Base.{
  ℕ, ◌≡◌, refl, ap, ◌∙◌, Option-cases, Bool, true, false, ◌&&◌, ◌||◌, none, some, ◌==◌, is_some,
  if◌then◌else◌, arith, not, String, Bool-cases, inl, inr, [], ◌∷◌, ◌++◌,
}
use digitalocean.Models.{Job, Attempt, DeadLetter, Json}
use digitalocean.Sql.{find, update, count, delete}
use digitalocean.Sql.Update.{
  Unique, find-update, find_sound, is_some-find-append, find-delete, count-key,
}
use digitalocean.Repository.Store.{Db, get_job, insert_attempt, replace_dead_letter, is_attempt}
use digitalocean.Repository.Finish.{will_retry, bury}
use digitalocean.Repository.Invariant.{has_attempt, has_dead_letter}

-- An update that keeps identifiers changes each job by itself.
pub get_job-update :
    (p : Job → Bool) (f : Job → Job) (db : Db) (k : ℕ)
    → ((j : Job) → (f j).id ≡ j.id)
    → get_job k (record db { jobs = update p f db.jobs })
      ≡ Option.map (λ j. if p j then f j else j) (get_job k db)
unfolding get_job
get_job-update p f db k same = find-update (λ j. j.id == k) p f db.jobs (λ j. rw (same j))

pub get_job-id : (k : ℕ) (db : Db) {j : Job} → get_job k db ≡ some j → j.id ≡ k
unfolding get_job
get_job-id k db {j} e = let test = find_sound (λ x. x.id == k) db.jobs e in ground arith

-- A lookup reads one table alone.
pub get_job-same : (k : ℕ) (db db' : Db) → db'.jobs ≡ db.jobs → get_job k db' ≡ get_job k db
unfolding get_job
get_job-same k db db' e = ap (find (λ j. j.id == k)) e

-- An update by identifier leaves the other jobs alone.
pub get_job-update_ne :
    (k m : ℕ) (q : Job → Bool) (f : Job → Job) (db db' : Db)
    → ((j : Job) → (f j).id ≡ j.id)
    → db'.jobs ≡ update (λ j. j.id == k && q j) f db.jobs
    → (k == m) ≡ false
    → get_job m db' ≡ get_job m db
get_job-update_ne k m q f db db' same jobs other =
    let p = λ (j : Job). j.id == k && q j in
    get_job-same m (record db { jobs = update p f db.jobs }) db' jobs
    ∙ get_job-update p f db m same
    ∙ elim (Option-cases (get_job m db)) [
      | inl e ↦ rw e
      | inr (j, e) ↦ let here = get_job-id m db e in rw e (ground arith)
    ]

pub has_dead_letter-same :
    (k : ℕ) (db db' : Db)
    → db'.dead_letters ≡ db.dead_letters
    → has_dead_letter k db' ≡ has_dead_letter k db
unfolding has_dead_letter
has_dead_letter-same k db db' e = ap (λ l. is_some (find (λ d. d.job_id == k) l)) e

pub has_attempt-same :
    (k n : ℕ) (db db' : Db)
    → db'.job_attempts ≡ db.job_attempts
    → has_attempt k n db' ≡ has_attempt k n db
unfolding has_attempt
has_attempt-same k n db db' e = ap (λ l. is_some (find (is_attempt k n) l)) e

-- The rows that an update by identifier and a further test meets.
pub count-job :
    (k : ℕ) (q : Job → Bool) (db : Db)
    → Unique (λ j. j.id) db.jobs
    → count (λ j. j.id == k && q j) db.jobs
      ≡ elim (get_job k db) [ none ↦ 0 | some j ↦ if q j then 1 else 0 ]
unfolding get_job
count-job k q db u = count-key (λ j. j.id) k q db.jobs u

-- The insert of an attempt succeeds for a known job and a new number.
pub insert_attempt_new :
    (a : Attempt) (db : Db)
    → is_some (get_job a.job_id db) ≡ true
    → has_attempt a.job_id a.attempt_no db ≡ false
    → (db' : Db) × (insert_attempt a db ≡ some db')
      × (db'.jobs ≡ db.jobs)
      × (db'.dead_letters ≡ db.dead_letters)
      × ((k n : ℕ) → has_attempt k n db' ≡ (has_attempt k n db || is_attempt k n a))
unfolding insert_attempt has_attempt
insert_attempt_new a db known new = (
  record db { job_attempts = db.job_attempts ++ (a ∷ []) },
  rw (known, new),
  refl,
  refl,
  λ k n. is_some-find-append (is_attempt k n) db.job_attempts a,
)

pub has_dead_letter-replace :
    (d : DeadLetter) (db : Db) (k : ℕ)
    → has_dead_letter k (replace_dead_letter d db) ≡ (has_dead_letter k db || (d.job_id == k))
unfolding has_dead_letter replace_dead_letter
has_dead_letter-replace d db k =
    rw
      (is_some-find-append (λ x. x.job_id == k) (delete (λ x. x.job_id == d.job_id) db.dead_letters)
        d)
      (rw (find-delete (λ x. x.job_id) d.job_id k db.dead_letters) (ground arith))

-- What `bury` does to the lookups.
pub has_dead_letter-bury :
    (now k no' : ℕ) (payload : Json) (error : String) (max_retries : ℕ) (db : Db) (m : ℕ)
    → has_dead_letter m (bury now k payload error no' max_retries db)
      ≡ (has_dead_letter m db || not (will_retry no' max_retries) && k == m)
unfolding bury
has_dead_letter-bury now k no' payload error max_retries db m =
    elim (Bool-cases (will_retry no' max_retries)) [
      | inl e ↦ rw e (ground arith)
      | inr e ↦ rw e (rw (has_dead_letter-replace _ db m) (ground arith))
    ]

pub jobs-bury :
    (now k no' : ℕ) (payload : Json) (error : String) (max_retries : ℕ) (db : Db)
    → ((bury now k payload error no' max_retries db).jobs ≡ db.jobs)
      × ((bury now k payload error no' max_retries db).job_attempts ≡ db.job_attempts)
unfolding bury replace_dead_letter
jobs-bury now k no' payload error max_retries db = ground arith
