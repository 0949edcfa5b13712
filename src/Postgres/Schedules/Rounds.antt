-- ===== src/Postgres/Schedules/Rounds.antt =====
-- The loop of the materializer of PostgreSQL over all schedules that are due.
use digitalocean.Base.{
  ℕ, ◌+◌, ◌≡◌, refl, Bool, false, not, ◌&&◌, some, List, [], ◌∷◌, ◌==◌, is_some, ltb, arith, subst,
  ap, ◌∙◌,
}
use digitalocean.Models.{Schedule}
use digitalocean.Sql.{find, select, order_by}
use digitalocean.Sql.Update.{Unique}
use digitalocean.Sql.Select.{Current, Current-select, Unique-select}
use digitalocean.Sql.Sort.{All, All-order_by}
use digitalocean.Sql.Order.{Unique-order_by, Unique-limit, All-limit}
use digitalocean.Repository.Store.{Db, Result, ok, raise}
use digitalocean.Repository.Schedules.{Cron, get_schedule}
use digitalocean.Repository.Schedules.Materialize.{is_due, advance}
use digitalocean.Postgres.Schedules.{
  materialize_row, materialize_rows, due_schedules, committed, materialize_due_schedules,
}
use digitalocean.Postgres.Schedules.Once.{answered, counted}
use digitalocean.Postgres.Schedules.Moves.{
  Moved, Step, materialize_row-Step, get_schedule-id, unmoved, Moved-cons,
}

abbrev Found : Db → List Schedule → Type 0
Found db rows = All (λ (s : Schedule). get_schedule s.id db ≡ some s) rows

-- The later rows stand in the table after the first one.
Found-Step :
    (cron : Cron) (now : ℕ) (s : Schedule) (rows : List Schedule) (db db1 : Db) (one : ℕ)
    → is_some (find (λ r. r.id == s.id) rows) ≡ false
    → Step cron now s db db1 one
    → Found db rows
    → Found db1 rows
Found-Step cron now s [] db db1 one fresh step found = tt
Found-Step cron now s (t ∷ rows) db db1 one fresh step (here, rest) = (
  step.schedules t.id
      ∙ unmoved s (advance now s.next_run_at step.next) (get_schedule t.id db) t.id (ground arith)
          (λ u e. get_schedule-id t.id db e)
      ∙ here,
  Found-Step cron now s rows db db1 one (ground arith) step rest,
)

Moved-nil : (cron : Cron) (now : ℕ) (db : Db) → Moved cron now [] db db 0
Moved-nil cron now db = record {
  advanced = tt;
  occurred = tt;
  others = λ k h. refl;
  kept = λ p h. h;
  added = omega arith;
}

-- What a run of the loop that raised nothing has done.
abbrev Ran : Cron → (now : ℕ) → List Schedule → Db → (count : ℕ) → Db → (total : ℕ) → Type 0
Ran cron now rows db count db' total = (n : ℕ) × (total ≡ count + n) × Moved cron now rows db db' n

module _ (cron : Cron) (now : ℕ) (uuid : ℕ → ℕ) where
  -- A round, and the rest of the loop after it.
  row-Ran :
      (s : Schedule) (rows : List Schedule) (n : ℕ) (db : Db) (count : ℕ) (db' : Db) (total : ℕ)
      → Unique (λ s. s.id) (s ∷ rows)
      → Found db (s ∷ rows)
      → ((db1 : Db) (one : ℕ)
          → Found db1 rows
          → materialize_rows cron now uuid rows (n + 1) db1 (count + one) ≡ ok (db', total)
          → Ran cron now rows db1 (count + one) db' total)
      → (r : Result (Db × ℕ)) → materialize_row cron now (uuid n) s db ≡ r
      → elim r [
        | raise x ↦ raise x
        | ok (db1, one) ↦ materialize_rows cron now uuid rows (n + 1) db1 (count + one)
      ]
        ≡ ok (db', total)
      → Ran cron now (s ∷ rows) db count db' total
  row-Ran s rows n db count db' total u found later (raise x) first e = cc
  row-Ran s rows n db count db' total u found later (ok (db1, one)) first e =
      let step = materialize_row-Step cron now s (uuid n) db db1 one first in
      let (m, counted, moved) =
        later db1 one (Found-Step cron now s rows db db1 one u.0 step found.1) e in
      (one + m, omega arith, Moved-cons cron now s rows db db1 db' one m found.0 u.0 step moved)

  materialize_rows-Ran :
      (rows : List Schedule) (n : ℕ) (db : Db) (count : ℕ) (db' : Db) (total : ℕ)
      → Unique (λ s. s.id) rows
      → Found db rows
      → materialize_rows cron now uuid rows n db count ≡ ok (db', total)
      → Ran cron now rows db count db' total
  unfolding materialize_rows
  materialize_rows-Ran [] n db count db' total u found e =
      let same : db ≡ db' = ap (answered db) e in
      let counts : count ≡ total = ap counted e in
      (0, omega arith, subst (λ d. Moved cron now [] db d 0) same (Moved-nil cron now db))
  materialize_rows-Ran (s ∷ rows) n db count db' total u found e =
      row-Ran s rows n db count db' total u found
        (λ db1 one stand h.
          materialize_rows-Ran rows (n + 1) db1 (count + one) db' total u.1 stand h)
        (materialize_row cron now (uuid n) s db) refl e

Current-Found :
    (db : Db) (p : Schedule → Bool) (rows : List Schedule)
    → Current (λ s. s.id) p (λ k. get_schedule k db) rows
    → Found db rows
Current-Found db p [] c = tt
Current-Found db p (s ∷ rows) (here, test, rest) = (here, Current-Found db p rows rest)

committed-ok :
    (db : Db) (r : Result (Db × ℕ)) (db' : Db) (total : ℕ)
    → committed db r ≡ (db', ok total)
    → r ≡ ok (db', total)
committed-ok db (raise x) db' total e = cc
committed-ok db (ok (db1, n)) db' total e = cc

pub materialize_due_schedules-Moved :
    (cron : Cron) (locked : ℕ → Bool) (now : ℕ) (uuid : ℕ → ℕ) (max_rows total : ℕ) (db db' : Db)
    → Unique (λ s. s.id) db.recurring_schedules
    → materialize_due_schedules cron locked now uuid max_rows db ≡ (db', ok total)
    → Moved cron now (due_schedules locked now max_rows db) db db' total
unfolding materialize_due_schedules get_schedule
materialize_due_schedules-Moved cron locked now uuid max_rows total db db' u e =
    let due = λ (s : Schedule). is_due now s && not (locked s.id) in
    let before = λ (a b : Schedule). ltb a.next_run_at b.next_run_at in
    let chosen = select due db.recurring_schedules in
    let rows = due_schedules locked now max_rows db in
    let apart =
      Unique-limit (λ s. s.id) max_rows (order_by before chosen)
        (Unique-order_by (λ s. s.id) before chosen
          (Unique-select (λ s. s.id) due db.recurring_schedules u)) in
    let stand =
      All-limit (λ (s : Schedule). get_schedule s.id db ≡ some s) max_rows (order_by before chosen)
        (All-order_by before (λ (s : Schedule). get_schedule s.id db ≡ some s) chosen
          (Current-Found db due chosen
            (Current-select (λ s. s.id) due db.recurring_schedules u))) in
    let (n, counted, moved) =
      materialize_rows-Ran cron now uuid rows 0 db 0 db' total apart stand
        (committed-ok db (materialize_rows cron now uuid rows 0 db 0) db' total e) in
    let same : n ≡ total = omega arith in subst (Moved cron now rows db db') same moved
