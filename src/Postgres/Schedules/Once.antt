-- ===== src/Postgres/Schedules/Once.antt =====
-- An occurrence of a schedule becomes one job in PostgreSQL too, whatever identifiers are drawn.
use digitalocean.Base.{
  ℕ, ◌≡◌, refl, true, some, is_some, ◌⊎◌, ◌==◌, ◌++◌, ◌∷◌, [], arith, Option-cases, Bool-cases, inl,
  inr, subst, ap, sym, ◌∙◌,
}
use digitalocean.Models.{Job, Schedule}
use digitalocean.Sql.{find, update}
use digitalocean.Sql.Update.{is_some-find-append}
use digitalocean.Repository.Store.{
  Db, Result, ok, raise, integrity_error, invalid_cron_expression, insert_job, clashes,
}
use digitalocean.Repository.Schedules.{Cron}
use digitalocean.Repository.Schedules.Materialize.{occurrence, advance}
use digitalocean.Repository.Schedules.Materialize.Once.{occurs}
use digitalocean.Postgres.Schedules.{
  same_occurrence, insert_occurrence, advance_row, materialize_row,
}

-- The tables of an answer.
abbrev pub answered : Db → Result (Db × ℕ) → Db
answered db (raise e) = db
answered db (ok (db', n)) = db'

abbrev pub counted : Result (Db × ℕ) → ℕ
counted (raise e) = 2
counted (ok (db', n)) = n

-- The jobs after a row was or was not inserted, and the count.
abbrev pub Grows : Job → Db → Db → ℕ → Type 0
Grows row db db1 n = ((n ≡ 0) × (db1.jobs ≡ db.jobs)) ⊎ ((n ≡ 1) × (db1.jobs ≡ db.jobs ++ row ∷ []))

pub insert_occurrence-Grows :
    (row : Job) (n : ℕ) (db db1 : Db) → insert_occurrence row db ≡ ok (db1, n) → Grows row db db1 n
unfolding insert_occurrence insert_job
insert_occurrence-Grows row n db db1 e =
    elim (Bool-cases (is_some (find (same_occurrence row) db.jobs))) [
      | inl there ↦
          let same : ◌≡◌ {A = Result (Db × ℕ)} (ok (db, 0)) (ok (db1, n)) =
            rw (there, insert_occurrence) at e in
          inl (ap counted (sym same), ap (λ r. (answered db r).jobs) (sym same))
      | inr free ↦ elim (Bool-cases (is_some (find (clashes row) db.jobs))) [
        | inl clash ↦ absurd (
            let r : ◌≡◌ {A = Result (Db × ℕ)} (raise integrity_error) (ok (db1, n)) =
              rw (free, clash, insert_occurrence, insert_job) at e in
            cc)
        | inr new ↦
            let same : ◌≡◌ {A = Result (Db × ℕ)} (ok (record db { jobs = db.jobs ++ row ∷ [] }, 1))
                (ok (db1, n)) =
              rw (free, new, insert_occurrence, insert_job) at e in
            inr (ap counted (sym same), ap (λ r. (answered db r).jobs) (sym same))
      ]
    ]

module _ (cron : Cron) (s : Schedule) where
  -- Whether or not a row was inserted, the occurrence has its job.
  pub insert_occurrence-occurs :
      (now job_id n : ℕ) (db db1 : Db)
      → insert_occurrence (occurrence now job_id s) db ≡ ok (db1, n)
      → is_some (find (occurs s) db1.jobs) ≡ true
  unfolding insert_occurrence insert_job
  insert_occurrence-occurs now job_id n db db1 e =
      let row = occurrence now job_id s in
      let same = λ (r : Result (Db × ℕ)). is_some (find (occurs s) (answered db r).jobs) ≡ true in
      elim (Bool-cases (is_some (find (occurs s) db.jobs))) [
        | inl there ↦ subst same e (rw there there)
        | inr free ↦ elim (Bool-cases (is_some (find (clashes row) db.jobs))) [
          | inl clash ↦ absurd (
              let r : ◌≡◌ {A = Result (Db × ℕ)} (raise integrity_error) (ok (db1, n)) =
                rw (free, clash, insert_occurrence, insert_job) at e in
              cc)
          | inr new ↦
              subst same e
                (rw free (rw new (is_some-find-append (occurs s) db.jobs row ∙ ground arith)))
        ]
      ]

  -- An occurrence that has its job gets no other.
  insert_occurrence-again :
      (now job_id : ℕ) (db : Db)
      → is_some (find (occurs s) db.jobs) ≡ true
      → insert_occurrence (occurrence now job_id s) db ≡ ok (db, 0)
  unfolding insert_occurrence
  insert_occurrence-again now job_id db there = rw there refl

  -- The schedule moves on and the jobs stay.
  pub advance_row-jobs :
      (now next n : ℕ) (db : Db)
      → cron s.cron_expression s.next_run_at ≡ some next
      → (db' : Db) × (advance_row cron now s (ok (db, n)) ≡ ok (db', n)) × (db'.jobs ≡ db.jobs)
  advance_row-jobs now next n db good = (
    record db {
      recurring_schedules =
          update (λ t. t.id == s.id) (advance now s.next_run_at next) db.recurring_schedules;
    },
    rw (good, advance_row) refl,
    refl,
  )

  -- What a round that raised nothing has done.
  pub advance_row-ok :
      (now n : ℕ) (r : Result (Db × ℕ)) (db1 : Db)
      → advance_row cron now s r ≡ ok (db1, n)
      → (next : ℕ) × (cron s.cron_expression s.next_run_at ≡ some next)
        × ((db : Db) × (r ≡ ok (db, n)) × (db1.jobs ≡ db.jobs))
  advance_row-ok now n (raise e) db1 h = cc
  advance_row-ok now n (ok (db, m)) db1 h =
      elim (Option-cases (cron s.cron_expression s.next_run_at)) [
        | inl bad ↦ absurd (
            let r : ◌≡◌ {A = Result (Db × ℕ)} (raise invalid_cron_expression) (ok (db1, n)) =
              rw (bad, advance_row) at h in
            cc)
        | inr (next, good) ↦
            let (db', moved, kept) = advance_row-jobs now next m db good in
            let same : ◌≡◌ {A = Result (Db × ℕ)} (ok (db', m)) (ok (db1, n)) = sym moved ∙ h in
            (next, good, (db, cc, ap (λ r. (answered db r).jobs) (sym same) ∙ kept))
      ]

  -- When the body of the loop of the materializer of the PostgreSQL repository ran for a schedule
  -- and raised nothing, it counted and added the job of the occurrence or counted and added none;
  -- and running it again for the same occurrence, at any time and with any identifier, raises
  -- nothing, counts no job and leaves the jobs as they are.
  pub occurrence-once :
      (now now' job_id job_id' n : ℕ) (db db1 : Db)
      → materialize_row cron now job_id s db ≡ ok (db1, n)
      → Grows (occurrence now job_id s) db db1 n
        × ((db2 : Db) × (materialize_row cron now' job_id' s db1 ≡ ok (db2, 0))
            × (db2.jobs ≡ db1.jobs))
  unfolding materialize_row
  occurrence-once now now' job_id job_id' n db db1 e =
      let (next, good, (mid, inserted, kept)) =
        advance_row-ok now n (insert_occurrence (occurrence now job_id s) db) db1 e in
      let there : is_some (find (occurs s) db1.jobs) ≡ true =
        rw kept (insert_occurrence-occurs now job_id n db mid inserted) in
      let grows = insert_occurrence-Grows (occurrence now job_id s) n db mid inserted in
      (
        subst
            (λ jobs.
              ((n ≡ 0) × (jobs ≡ db.jobs))
              ⊎ ((n ≡ 1) × (jobs ≡ db.jobs ++ occurrence now job_id s ∷ [])))
            (sym kept) grows,
        rw (insert_occurrence-again now' job_id' db1 there, materialize_row)
            (advance_row-jobs now' next 0 db1 good),
      )
