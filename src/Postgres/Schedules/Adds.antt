-- ===== src/Postgres/Schedules/Adds.antt =====
-- The materializer of PostgreSQL only adds jobs.
use digitalocean.Base.{
  ℕ, ◌+◌, refl, Bool, List, [], ◌∷◌, is_some, arith, Option-cases, Bool-cases, inl, inr,
}
use digitalocean.Models.{Job, Schedule}
use digitalocean.Sql.{find}
use digitalocean.Repository.Store.{Db, Result, ok, raise, get_job, insert_job}
use digitalocean.Repository.Schedules.{Cron}
use digitalocean.Repository.Schedules.Materialize.{occurrence}
use digitalocean.Repository.Invariant.{IsValid}
use digitalocean.Repository.Invariant.Insert.{IsNew, insert_job-IsValid}
use digitalocean.Repository.Invariant.Schedules.{schedules-IsValid}
use digitalocean.System.Entered.{AllEntered, Entered-trans, insert_job-Entered}
use digitalocean.Postgres.Schedules.{
  same_occurrence, insert_occurrence, advance_row, materialize_row, materialize_rows, due_schedules,
  committed, materialize_due_schedules,
}

-- Consistent tables again, with more jobs in the queue at most.
pub record Grown (db db' : Db) : Type 0 where
  pub valid : IsValid db'
  pub entered : AllEntered db db'

Grown-refl : (db : Db) → IsValid db → Grown db db
Grown-refl db v = record { valid = v; entered = λ k. inl refl }

Grown-trans : (db db1 db2 : Db) → Grown db db1 → Grown db1 db2 → Grown db db2
Grown-trans db db1 db2 g h = record {
  valid = h.valid;
  entered = λ k. Entered-trans (g.entered k) (h.entered k);
}

-- The tables of an answer that is no exception.
abbrev Adds : Db → Result (Db × ℕ) → Type 0
Adds db (raise e) = Unit
Adds db (ok (db', n)) = Grown db db'

insert_occurrence-Adds :
    (row : Job) (db : Db) → IsNew row → IsValid db → Adds db (insert_occurrence row db)
unfolding insert_occurrence
insert_occurrence-Adds row db new v =
    elim (Bool-cases (is_some (find (same_occurrence row) db.jobs))) [
      | inl there ↦ rw there (Grown-refl db v)
      | inr free ↦ elim (Option-cases (insert_job row db)) [
        | inl clash ↦ rw (free, clash) tt
        | inr (db', e) ↦
            rw (free, e)
              (record {
                valid = insert_job-IsValid row db new v e;
                entered = insert_job-Entered row db new e;
              })
      ]
    ]

module _ (cron : Cron) (now : ℕ) where
  advance_row-Adds :
      (s : Schedule) (db : Db) (r : Result (Db × ℕ))
      → Adds db r
      → Adds db (advance_row cron now s r)
  unfolding get_job
  advance_row-Adds s db (raise e) g = tt
  advance_row-Adds s db (ok (db', one)) g =
      elim (Option-cases (cron s.cron_expression s.next_run_at)) [
        | inl bad ↦ rw (bad, Adds) tt
        | inr (next, good) ↦
            rw (good, Adds)
              (record { valid = schedules-IsValid _ db' g.valid; entered = g.entered })
      ]

  materialize_row-Adds :
      (job_id : ℕ) (s : Schedule) (db : Db)
      → IsValid db
      → Adds db (materialize_row cron now job_id s db)
  unfolding materialize_row
  materialize_row-Adds job_id s db v =
      advance_row-Adds s db (insert_occurrence (occurrence now job_id s) db)
        (insert_occurrence-Adds (occurrence now job_id s) db (ground arith) v)

  -- The rest of the loop after one row.
  continue-Adds :
      (db : Db) (r : Result (Db × ℕ)) (rest : Db → ℕ → Result (Db × ℕ))
      → Adds db r
      → ((db' : Db) (one : ℕ) → IsValid db' → Adds db' (rest db' one))
      → Adds db (elim r [ raise e ↦ raise e | ok (db', one) ↦ rest db' one ])
  continue-Adds db (raise e) rest g later = tt
  continue-Adds db (ok (db', one)) rest g later = after-Adds (rest db' one) (later db' one g.valid)
    where
      after-Adds : (last : Result (Db × ℕ)) → Adds db' last → Adds db last
      after-Adds (raise e) h = tt
      after-Adds (ok (db'', n)) h = Grown-trans db db' db'' g h

  materialize_rows-Adds :
      (uuid : ℕ → ℕ) (rows : List Schedule) (n : ℕ) (db : Db) (count : ℕ)
      → IsValid db
      → Adds db (materialize_rows cron now uuid rows n db count)
  unfolding materialize_rows
  materialize_rows-Adds uuid [] n db count v = Grown-refl db v
  materialize_rows-Adds uuid (s ∷ rows) n db count v =
      continue-Adds db (materialize_row cron now (uuid n) s db)
        (λ db' one. materialize_rows cron now uuid rows (n + 1) db' (count + one))
        (materialize_row-Adds (uuid n) s db v)
        (λ db' one v'. materialize_rows-Adds uuid rows (n + 1) db' (count + one) v')

committed-Grown :
    (db : Db) (r : Result (Db × ℕ)) → IsValid db → Adds db r → Grown db (committed db r).0
committed-Grown db (raise e) v g = Grown-refl db v
committed-Grown db (ok (db', n)) v g = g

pub materialize_due_schedules-Grown :
    (cron : Cron) (locked : ℕ → Bool) (now : ℕ) (uuid : ℕ → ℕ) (max_rows : ℕ) (db : Db)
    → IsValid db
    → Grown db (materialize_due_schedules cron locked now uuid max_rows db).0
unfolding materialize_due_schedules
materialize_due_schedules-Grown cron locked now uuid max_rows db v =
    let rows = due_schedules locked now max_rows db in
    committed-Grown db (materialize_rows cron now uuid rows 0 db 0) v
      (materialize_rows-Adds cron now uuid rows 0 db 0 v)
