-- ===== src/System/Entered.antt =====
-- The operations that only add jobs: submissions, batches and schedules.
use digitalocean.Base.{
  ℕ, ◌+◌, ◌≡◌, refl, ◌⊎◌, inl, inr, Option, none, some, List, [], ◌∷◌, ◌==◌, is_some, or_else,
  if◌then◌else◌, arith, Option-cases, Bool-cases, subst, sym, ◌∙◌, some_inj, fst_eq,
}
use digitalocean.Models.{Job, JobCreate, Schedule, queued}
use digitalocean.Sql.Update.{find-append}
use digitalocean.Repository.Store.{Db, get_job, insert_job}
use digitalocean.Repository.Create.{new_row, insert_jobs, batch_rows, create_jobs_batch}
use digitalocean.Repository.Schedules.{Cron}
use digitalocean.Repository.Schedules.Materialize.{
  occurrence, materialize_row, materialize_rows, due_schedules, materialize_due_schedules,
}
use digitalocean.Repository.Invariant.Insert.{IsNew, insert_job-some}

-- A job stays as it is, or enters the queue.
abbrev pub Entered : Option Job → Option Job → Type 0
Entered o o' =
    (o' ≡ o)
    ⊎ ((o ≡ none) × ((j : Job) × (o' ≡ some j) × (j.status ≡ queued) × (j.attempt_count ≡ 0)))

abbrev pub AllEntered : Db → Db → Type 0
AllEntered db db' = (k : ℕ) → Entered (get_job k db) (get_job k db')

pub Entered-trans : {o o' o'' : Option Job} → Entered o o' → Entered o' o'' → Entered o o''
Entered-trans (inl e) (inl e') = inl (e' ∙ e)
Entered-trans (inl e) (inr (gone, rest)) = inr (sym e ∙ gone, rest)
Entered-trans (inr (gone, rest)) (inl e) = inr (gone, (rest.0, e ∙ rest.1, rest.2, rest.3))
Entered-trans (inr (gone, rest)) (inr (gone', rest')) = absurd (let x = rest.1 in cc)

Entered-append :
    (k : ℕ) (row : Job) (o : Option Job)
    → IsNew row
    → Entered o (if is_some o then o else (if row.id == k then some row else none))
Entered-append k row (some j) new = inl refl
Entered-append k row none (valid, waits, untried) = elim (Bool-cases (row.id == k)) [
  | inl e ↦ rw e (inr (refl, (row, refl, waits, untried)))
  | inr e ↦ rw e (inl refl)
]

pub insert_job-Entered :
    (row : Job) (db : Db) {db' : Db} → IsNew row → insert_job row db ≡ some db' → AllEntered db db'
unfolding get_job
insert_job-Entered row db new e k =
    let (absent, appended) = insert_job-some row db e in
    rw (appended, find-append (λ j. j.id == k) db.jobs row)
      (Entered-append k row (get_job k db) new)

insert_jobs-Entered :
    (now : ℕ) (uuid : ℕ → ℕ) (max_retries timeout : ℕ) (requests : List JobCreate) (n : ℕ) (db : Db)
    {db' : Db}
    → insert_jobs (batch_rows now uuid max_retries timeout requests n) db ≡ some db'
    → AllEntered db db'
unfolding insert_jobs batch_rows
insert_jobs-Entered now uuid max_retries timeout [] n db e =
    subst (AllEntered db) (some_inj e) (λ k. inl refl)
insert_jobs-Entered now uuid max_retries timeout (request ∷ requests) n db {db'} e =
    let row = new_row now (uuid n) none none request max_retries timeout in
    elim (Option-cases (insert_job row db)) [
      | inl clash ↦
          absurd (let r : ◌≡◌ {A = Option Db} none (some db') = rw (clash, insert_jobs) at e in cc)
      | inr (db1, first) ↦ λ k. Entered-trans (insert_job-Entered row db (ground arith) first k) (
          insert_jobs-Entered now uuid max_retries timeout requests (n + 1) db1
            (rw (first, insert_jobs) at e) k)
    ]

pub create_jobs_batch-Entered :
    (now : ℕ) (uuid : ℕ → ℕ) (requests : List JobCreate) (max_retries timeout : ℕ) (db : Db)
    → AllEntered db (create_jobs_batch now uuid requests max_retries timeout db).0
unfolding create_jobs_batch
create_jobs_batch-Entered now uuid [] max_retries timeout db = λ k. inl refl
create_jobs_batch-Entered now uuid (request ∷ requests) max_retries timeout db =
    let rows = batch_rows now uuid max_retries timeout (request ∷ requests) 0 in
    elim (Option-cases (insert_jobs rows db)) [
      | inl clash ↦ rw (clash, create_jobs_batch) (λ k. inl refl)
      | inr (db', e) ↦
          rw (e, create_jobs_batch)
            (insert_jobs-Entered now uuid max_retries timeout (request ∷ requests) 0 db e)
    ]

module _ (cron : Cron) (now : ℕ) (uuid : ℕ → ℕ) where
  inserted-Entered :
      (job_id : ℕ) (s : Schedule) (db : Db)
      → AllEntered db (or_else (insert_job (occurrence now job_id s) db) db)
  inserted-Entered job_id s db = elim (Option-cases (insert_job (occurrence now job_id s) db)) [
    | inl ignored ↦ rw ignored (λ k. inl refl)
    | inr (db', e) ↦ rw e (insert_job-Entered (occurrence now job_id s) db (ground arith) e)
  ]

  materialize_row-Entered :
      (job_id : ℕ) (s : Schedule) (db : Db) {db' : Db} {one : ℕ}
      → materialize_row cron now job_id s db ≡ some (db', one)
      → AllEntered db db'
  unfolding materialize_row get_job
  materialize_row-Entered job_id s db {db'} {one} e =
      elim (Option-cases (cron s.cron_expression s.next_run_at)) [
        | inl bad ↦ absurd (
            let r : ◌≡◌ {A = Option (Db × ℕ)} none (some (db', one)) =
              rw (bad, materialize_row) at e in
            cc)
        | inr (next, good) ↦
            subst (AllEntered db) (fst_eq (some_inj (rw (good, materialize_row) at e)))
              (inserted-Entered job_id s db)
      ]

  materialize_rows-Entered :
      (rows : List Schedule) (n : ℕ) (db : Db) (count : ℕ) {db' : Db} {total : ℕ}
      → materialize_rows cron now uuid rows n db count ≡ some (db', total)
      → AllEntered db db'
  unfolding materialize_rows
  materialize_rows-Entered [] n db count e =
      subst (AllEntered db) (fst_eq (some_inj e)) (λ k. inl refl)
  materialize_rows-Entered (s ∷ rows) n db count {db'} {total} e =
      elim (Option-cases (materialize_row cron now (uuid n) s db)) [
        | inl bad ↦ absurd (
            let r : ◌≡◌ {A = Option (Db × ℕ)} none (some (db', total)) =
              rw (bad, materialize_rows) at e in
            cc)
        | inr ((db1, one), good) ↦ λ k.
            Entered-trans (materialize_row-Entered (uuid n) s db good k) (
              materialize_rows-Entered rows (n + 1) db1 (count + one)
                (rw (good, materialize_rows) at e) k)
      ]

  pub materialize_due_schedules-Entered :
      (max_rows : ℕ) (db : Db)
      → AllEntered db (materialize_due_schedules cron now uuid max_rows db).0
  unfolding materialize_due_schedules
  materialize_due_schedules-Entered max_rows db =
      elim (Option-cases (materialize_rows cron now uuid (due_schedules now max_rows db) 0 db 0)) [
        | inl bad ↦ rw (bad, materialize_due_schedules) (λ k. inl refl)
        | inr ((db', total), good) ↦
            rw (good, materialize_due_schedules)
              (materialize_rows-Entered (due_schedules now max_rows db) 0 db 0 good)
      ]
