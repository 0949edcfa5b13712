-- ===== src/Repository/Invariant/Schedules.antt =====
-- The jobs of due schedules keep the tables consistent.
use digitalocean.Base.{
  ℕ, ◌+◌, ◌≡◌, Option, none, some, List, [], ◌∷◌, or_else, arith, Option-cases, inl, inr, some_inj,
  fst_eq, subst,
}
use digitalocean.Models.{Schedule}
use digitalocean.Repository.Store.{Db, get_job, insert_job}
use digitalocean.Repository.Schedules.{Cron}
use digitalocean.Repository.Schedules.Materialize.{
  occurrence, materialize_row, materialize_rows, due_schedules, materialize_due_schedules,
}
use digitalocean.Repository.Invariant.{IsValid, has_attempt, has_dead_letter}
use digitalocean.Repository.Invariant.Insert.{insert_job-IsValid}

-- The schedules are no part of the invariant.
pub schedules-IsValid :
    (l : List Schedule) (db : Db) → IsValid db → IsValid (record db { recurring_schedules = l })
unfolding get_job has_attempt has_dead_letter
schedules-IsValid l db v = record { keys = v.keys; agrees = v.agrees }

inserted-IsValid :
    (now job_id : ℕ) (s : Schedule) (db : Db)
    → IsValid db
    → IsValid (or_else (insert_job (occurrence now job_id s) db) db)
inserted-IsValid now job_id s db v = elim (Option-cases (insert_job (occurrence now job_id s) db)) [
  | inl ignored ↦ rw ignored v
  | inr (db', e) ↦ rw e (insert_job-IsValid (occurrence now job_id s) db (ground arith) v e)
]

module _ (cron : Cron) (now : ℕ) (uuid : ℕ → ℕ) where
  materialize_row-IsValid :
      (job_id : ℕ) (s : Schedule) (db : Db) {db' : Db} {one : ℕ}
      → IsValid db
      → materialize_row cron now job_id s db ≡ some (db', one)
      → IsValid db'
  unfolding materialize_row
  materialize_row-IsValid job_id s db {db'} {one} v e =
      elim (Option-cases (cron s.cron_expression s.next_run_at)) [
        | inl bad ↦ absurd (
            let r : ◌≡◌ {A = Option (Db × ℕ)} none (some (db', one)) =
              rw (bad, materialize_row) at e in
            cc)
        | inr (next, good) ↦
            let answer = fst_eq (some_inj (rw (good, materialize_row) at e)) in
            subst IsValid answer (
              schedules-IsValid _ (or_else (insert_job (occurrence now job_id s) db) db)
                (inserted-IsValid now job_id s db v))
      ]

  materialize_rows-IsValid :
      (rows : List Schedule) (n : ℕ) (db : Db) (count : ℕ) {db' : Db} {total : ℕ}
      → IsValid db
      → materialize_rows cron now uuid rows n db count ≡ some (db', total)
      → IsValid db'
  unfolding materialize_rows
  materialize_rows-IsValid [] n db count v e = subst IsValid (fst_eq (some_inj e)) v
  materialize_rows-IsValid (s ∷ rows) n db count {db'} {total} v e =
      elim (Option-cases (materialize_row cron now (uuid n) s db)) [
        | inl bad ↦ absurd (
            let r : ◌≡◌ {A = Option (Db × ℕ)} none (some (db', total)) =
              rw (bad, materialize_rows) at e in
            cc)
        | inr ((db1, one), good) ↦
            materialize_rows-IsValid rows (n + 1) db1 (count + one)
              (materialize_row-IsValid (uuid n) s db v good) (rw (good, materialize_rows) at e)
      ]

  pub materialize_due_schedules-IsValid :
      (max_rows : ℕ) (db : Db)
      → IsValid db
      → IsValid (materialize_due_schedules cron now uuid max_rows db).0
  unfolding materialize_due_schedules
  materialize_due_schedules-IsValid max_rows db v =
      elim (Option-cases (materialize_rows cron now uuid (due_schedules now max_rows db) 0 db 0)) [
        | inl bad ↦ rw (bad, materialize_due_schedules) v
        | inr ((db', total), good) ↦
            rw (good, materialize_due_schedules)
              (materialize_rows-IsValid (due_schedules now max_rows db) 0 db 0 v good)
      ]
