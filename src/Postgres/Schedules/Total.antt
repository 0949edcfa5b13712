-- ===== src/Postgres/Schedules/Total.antt =====
-- The materializer of PostgreSQL raises nothing when croniter answers and identifiers are new.
use digitalocean.Base.{
  ℕ, ◌+◌, ◌≡◌, ◌≤◌, ◌<◌, refl, Bool, true, false, List, [], ◌∷◌, ◌++◌, ◌==◌, is_some, arith,
  Option-cases, Bool-cases, inl, inr, subst, sym, ◌∙◌,
}
use digitalocean.Models.{Job, Schedule}
use digitalocean.Sql.{find}
use digitalocean.Sql.Update.{Unique, is_some-find-append}
use digitalocean.Sql.Sort.{All}
use digitalocean.Repository.Store.{Db, Result, ok, insert_job, clashes}
use digitalocean.Repository.Schedules.{Cron}
use digitalocean.Repository.Schedules.Materialize.{occurrence}
use digitalocean.Postgres.Schedules.{
  same_occurrence, insert_occurrence, materialize_row, materialize_rows, due_schedules,
  materialize_due_schedules,
}
use digitalocean.Postgres.Schedules.Once.{
  Grows, insert_occurrence-Grows, advance_row-jobs, advance_row-ok,
}
use digitalocean.Postgres.Schedules.Moves.{Moved}
use digitalocean.Postgres.Schedules.Rounds.{materialize_due_schedules-Moved}

abbrev pub has_id : ℕ → List Job → Bool
has_id k jobs = is_some (find (λ (j : Job). j.id == k) jobs)

-- The identifiers that are drawn from the n-th on are new, and differ.
abbrev pub IsFresh : (ℕ → ℕ) → ℕ → Db → Type 0
IsFresh uuid n db = (m : ℕ) → n ≤ m → has_id (uuid m) db.jobs ≡ false

abbrev pub IsDistinct : (ℕ → ℕ) → Type 0
IsDistinct uuid = (m n : ℕ) → m < n → (uuid m == uuid n) ≡ false

-- Without a key, only an identifier or an occurrence clashes.
pub no_clash :
    (now job_id : ℕ) (s : Schedule) (jobs : List Job)
    → has_id job_id jobs ≡ false
    → is_some (find (same_occurrence (occurrence now job_id s)) jobs) ≡ false
    → is_some (find (clashes (occurrence now job_id s)) jobs) ≡ false
no_clash now job_id s [] fresh free = refl
no_clash now job_id s (j ∷ jobs) fresh free = ground (arith, no_clash now job_id s jobs)

insert_occurrence-Answers :
    (now job_id : ℕ) (s : Schedule) (db : Db)
    → has_id job_id db.jobs ≡ false
    → (db1 : Db) × ((n : ℕ) × (insert_occurrence (occurrence now job_id s) db ≡ ok (db1, n)))
unfolding insert_occurrence insert_job
insert_occurrence-Answers now job_id s db fresh =
    let row = occurrence now job_id s in
    elim (Bool-cases (is_some (find (same_occurrence row) db.jobs))) [
      | inl there ↦ (db, (0, rw there refl))
      | inr free ↦ (
        record db { jobs = db.jobs ++ row ∷ [] },
        (1, rw free (rw (no_clash now job_id s db.jobs fresh free) refl)),
      )
    ]

pub Grows-IsFresh :
    (uuid : ℕ → ℕ) (now n one : ℕ) (s : Schedule) (db db1 : Db)
    → IsDistinct uuid
    → IsFresh uuid n db
    → Grows (occurrence now (uuid n) s) db db1 one
    → IsFresh uuid (n + 1) db1
Grows-IsFresh uuid now n one s db db1 distinct fresh (inl (none_new, same)) m later =
    rw same (fresh m (omega arith))
Grows-IsFresh uuid now n one s db db1 distinct fresh (inr (one_new, same)) m later = rw same (
    is_some-find-append (λ (j : Job). j.id == uuid m) db.jobs (occurrence now (uuid n) s)
    ∙ rw (fresh m (omega arith), distinct n m (omega arith)) refl)

-- A round that raised nothing keeps the identifiers of the later ones new.
pub materialize_row-IsFresh :
    (cron : Cron) (now : ℕ) (uuid : ℕ → ℕ) (distinct : IsDistinct uuid) (n one : ℕ) (s : Schedule)
    (db db1 : Db)
    → IsFresh uuid n db
    → materialize_row cron now (uuid n) s db ≡ ok (db1, one)
    → IsFresh uuid (n + 1) db1
unfolding materialize_row
materialize_row-IsFresh cron now uuid distinct n one s db db1 fresh e =
    let row = occurrence now (uuid n) s in
    let (next, good, (mid, ran, kept)) =
      advance_row-ok cron s now one (insert_occurrence row db) db1 e in
    let grows = insert_occurrence-Grows row one db mid ran in
    subst (λ jobs. (m : ℕ) → n + 1 ≤ m → has_id (uuid m) jobs ≡ false) (sym kept)
      (Grows-IsFresh uuid now n one s db mid distinct fresh grows)

module _ (cron : Cron) (now : ℕ) (uuid : ℕ → ℕ) (distinct : IsDistinct uuid) where
  -- croniter answers for every schedule of a list.
  abbrev pub Answers : List Schedule → Type 0
  Answers rows = All (λ (s : Schedule). is_some (cron s.cron_expression s.next_run_at) ≡ true) rows

  materialize_row-Answers :
      (n : ℕ) (s : Schedule) (db : Db)
      → IsFresh uuid n db
      → is_some (cron s.cron_expression s.next_run_at) ≡ true
      → (db1 : Db) × ((one : ℕ) × (materialize_row cron now (uuid n) s db ≡ ok (db1, one))
          × IsFresh uuid (n + 1) db1)
  unfolding materialize_row
  materialize_row-Answers n s db fresh asked =
      let (mid, (one, inserted)) =
        insert_occurrence-Answers now (uuid n) s db (fresh n (omega arith)) in
      elim (Option-cases (cron s.cron_expression s.next_run_at)) [
        | inl bad ↦ absurd (let gone = rw bad at asked in cc)
        | inr (next, good) ↦
            let (db1, moved, kept) = advance_row-jobs cron s now next one mid good in
            (
              db1,
              (
                one,
                rw inserted moved,
                materialize_row-IsFresh cron now uuid distinct n one s db db1 fresh
                    (rw inserted moved),
              ),
            )
      ]

  materialize_rows-Answers :
      (rows : List Schedule) (n : ℕ) (db : Db) (count : ℕ)
      → IsFresh uuid n db
      → Answers rows
      → (db' : Db) × ((total : ℕ) × (materialize_rows cron now uuid rows n db count
            ≡ ok (db', total)))
  unfolding materialize_rows
  materialize_rows-Answers [] n db count fresh asked = (db, (count, refl))
  materialize_rows-Answers (s ∷ rows) n db count fresh (first, asked) =
      let (db1, (one, ran, fresh1)) = materialize_row-Answers n s db fresh first in
      let (db', (total, rest)) =
        materialize_rows-Answers rows (n + 1) db1 (count + one) fresh1 asked in
      (db', (total, rw (ran, materialize_rows) rest))

-- The answer of the materializer.
abbrev pub Materializes : Cron → ℕ → List Schedule → Db → Db × Result ℕ → Type 0
Materializes cron now rows db (db', r) =
    (total : ℕ) × (r ≡ ok total) × Moved cron now rows db db' total

-- When the schedules have different identifiers, croniter answers for every schedule that the run
-- selects, and the identifiers drawn for jobs are new and differ, the materializer of the
-- PostgreSQL repository raises nothing and answers the number of the jobs that it adds: every due
-- schedule that no other transaction holds, up to the limit, has the job of its occurrence and
-- moves to the next run that croniter answers for the last one, so that no occurrence is passed
-- over; every other schedule stays, and no job is lost.
pub materialize_due_schedules_lem :
    (cron : Cron) (locked : ℕ → Bool) (now : ℕ) (uuid : ℕ → ℕ) (max_rows : ℕ) (db : Db)
    → Unique (λ s. s.id) db.recurring_schedules
    → IsDistinct uuid
    → ((n : ℕ) → is_some (find (λ (j : Job). j.id == uuid n) db.jobs) ≡ false)
    → All
        (λ (s : Schedule). is_some (cron s.cron_expression s.next_run_at) ≡ true)
        (due_schedules locked now max_rows db)
    → Materializes cron now
        (due_schedules locked now max_rows db)
        db
        (materialize_due_schedules cron locked now uuid max_rows db)
unfolding materialize_due_schedules
materialize_due_schedules_lem cron locked now uuid max_rows db u distinct fresh asked =
    let rows = due_schedules locked now max_rows db in
    let (db', (total, ran)) =
      materialize_rows-Answers cron now uuid distinct rows 0 db 0 (λ m h. fresh m) asked in
    let answer : materialize_due_schedules cron locked now uuid max_rows db ≡ (db', ok total) =
      rw ran refl in
    subst (Materializes cron now rows db) (sym answer) (
      total,
      refl,
      materialize_due_schedules-Moved cron locked now uuid max_rows total db db' u answer,
    )
