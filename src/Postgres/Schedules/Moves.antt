-- ===== src/Postgres/Schedules/Moves.antt =====
-- What one run of the materializer of PostgreSQL does to every schedule.
use mathlib.Core.Option
use digitalocean.Base.{
  ℕ, ◌+◌, ◌≡◌, refl, Bool, true, false, Option, none, some, List, [], ◌∷◌, ◌++◌, ◌==◌, is_some,
  length, if◌then◌else◌, arith, Option-cases, inl, inr, subst, ap, ◌∙◌,
}
use digitalocean.Models.{Job, Schedule}
use digitalocean.Sql.{find, update}
use digitalocean.Sql.Update.{find-update, find_sound, is_some-find-append}
use digitalocean.Sql.Sort.{All}
use digitalocean.Repository.Store.{Db, Result, ok, raise, invalid_cron_expression, insert_job}
use digitalocean.Repository.Schedules.{Cron, get_schedule}
use digitalocean.Repository.Schedules.Materialize.{occurrence, advance}
use digitalocean.Repository.Schedules.Materialize.Once.{occurs}
use digitalocean.Postgres.Schedules.{insert_occurrence, advance_row, materialize_row}
use digitalocean.Postgres.Schedules.Once.{
  answered, Grows, insert_occurrence-Grows, insert_occurrence-occurs,
}

-- The answer of croniter for the schedule's last time is its next one.
abbrev pub Advanced : Cron → (now : ℕ) → Schedule → Option Schedule → Type 0
Advanced cron now s o =
    (next : ℕ) × (cron s.cron_expression s.next_run_at ≡ some next)
    × (o ≡ some (advance now s.next_run_at next s))

-- The schedules of a list have their jobs and have moved on, all others stay, and no job is lost.
pub record Moved (cron : Cron) (now : ℕ) (rows : List Schedule) (db db' : Db) (n : ℕ) : Type 0 where
  pub advanced : All (λ s. Advanced cron now s (get_schedule s.id db')) rows
  pub occurred : All (λ s. is_some (find (occurs s) db'.jobs) ≡ true) rows
  pub others :
      (k : ℕ)
      → is_some (find (λ (s : Schedule). s.id == k) rows) ≡ false
      → get_schedule k db' ≡ get_schedule k db
  pub kept : (p : Job → Bool) → is_some (find p db.jobs) ≡ true → is_some (find p db'.jobs) ≡ true
  pub added : length db'.jobs ≡ length db.jobs + n

-- The body of the loop.
pub record Step (cron : Cron) (now : ℕ) (s : Schedule) (db db' : Db) (n : ℕ) : Type 0 where
  pub next : ℕ
  pub asked : cron s.cron_expression s.next_run_at ≡ some next
  pub schedules :
      (k : ℕ)
      → get_schedule k db'
        ≡ Option.map
            (λ t. if t.id == s.id then advance now s.next_run_at next t else t)
            (get_schedule k db)
  pub occurred : is_some (find (occurs s) db'.jobs) ≡ true
  pub kept : (p : Job → Bool) → is_some (find p db.jobs) ≡ true → is_some (find p db'.jobs) ≡ true
  pub added : length db'.jobs ≡ length db.jobs + n

length-append {ℓ} : {A : Type ℓ} (xs : List A) (x : A) → length (xs ++ x ∷ []) ≡ length xs + 1
length-append [] x = refl
length-append (y ∷ ys) x = let rest = length-append ys x in omega arith

Grows-kept :
    (row : Job) (db db1 : Db) (n : ℕ) (p : Job → Bool)
    → Grows row db db1 n
    → is_some (find p db.jobs) ≡ true
    → is_some (find p db1.jobs) ≡ true
Grows-kept row db db1 n p (inl (none_new, same)) h = rw same h
Grows-kept row db db1 n p (inr (one_new, same)) h =
    rw same (is_some-find-append p db.jobs row ∙ rw h refl)

Grows-length :
    (row : Job) (db db1 : Db) (n : ℕ) → Grows row db db1 n → length db1.jobs ≡ length db.jobs + n
Grows-length row db db1 n (inl (none_new, same)) = rw (same, none_new) (omega arith)
Grows-length row db db1 n (inr (one_new, same)) = rw (same, one_new) (length-append db.jobs row)

insert_occurrence-schedules :
    (row : Job) (db db1 : Db) (n : ℕ)
    → insert_occurrence row db ≡ ok (db1, n)
    → db1.recurring_schedules ≡ db.recurring_schedules
unfolding insert_occurrence insert_job
insert_occurrence-schedules row db db1 n e = ground arith

module _ (cron : Cron) (now : ℕ) (s : Schedule) where
  -- The tables after the second half of the body.
  abbrev advanced_db : ℕ → Db → Db
  advanced_db next db = record db {
    recurring_schedules =
        update (λ t. t.id == s.id) (advance now s.next_run_at next) db.recurring_schedules;
  }

  advance_row-runs :
      (r : Result (Db × ℕ)) (db1 : Db) (n : ℕ)
      → advance_row cron now s r ≡ ok (db1, n)
      → (next : ℕ) × (cron s.cron_expression s.next_run_at ≡ some next)
        × ((db : Db) × (r ≡ ok (db, n)) × (advanced_db next db ≡ db1))
  advance_row-runs (raise e) db1 n h = cc
  advance_row-runs (ok (db, m)) db1 n h =
      elim (Option-cases (cron s.cron_expression s.next_run_at)) [
        | inl bad ↦ absurd (
            let r : ◌≡◌ {A = Result (Db × ℕ)} (raise invalid_cron_expression) (ok (db1, n)) =
              rw (bad, advance_row) at h in
            cc)
        | inr (next, good) ↦
            let same : ◌≡◌ {A = Result (Db × ℕ)} (ok (advanced_db next db, m)) (ok (db1, n)) =
              rw (good, advance_row) at h in
            (next, good, (db, cc, ap (answered db) same))
      ]

  pub materialize_row-Step :
      (job_id : ℕ) (db db1 : Db) (n : ℕ)
      → materialize_row cron now job_id s db ≡ ok (db1, n)
      → Step cron now s db db1 n
  unfolding materialize_row get_schedule
  materialize_row-Step job_id db db1 n e =
      let row = occurrence now job_id s in
      let (next, good, (mid, inserted, last)) =
        advance_row-runs (insert_occurrence row db) db1 n e in
      let grows = insert_occurrence-Grows row n db mid inserted in
      let same = insert_occurrence-schedules row db mid n inserted in
      subst (λ d. Step cron now s db d n) last
        (record {
          next = next;
          asked = good;
          schedules = λ k. rw same (
              find-update (λ t. t.id == k) (λ t. t.id == s.id) (advance now s.next_run_at next)
                db.recurring_schedules (λ t. refl));
          occurred = insert_occurrence-occurs cron s now job_id n db mid inserted;
          kept = λ p h. Grows-kept row db mid n p grows h;
          added = Grows-length row db mid n grows;
        })

pub get_schedule-id : (k : ℕ) (db : Db) {s : Schedule} → get_schedule k db ≡ some s → s.id ≡ k
unfolding get_schedule
get_schedule-id k db e =
    let it = find_sound (λ (t : Schedule). t.id == k) db.recurring_schedules e in ground arith

-- A row under another key stays.
pub unmoved :
    (s : Schedule) (f : Schedule → Schedule) (o : Option Schedule) (k : ℕ)
    → (s.id == k) ≡ false
    → ((t : Schedule) → o ≡ some t → t.id ≡ k)
    → Option.map (λ t. if t.id == s.id then f t else t) o ≡ o
unmoved s f none k ne named = refl
unmoved s f (some t) k ne named =
    let same = named t refl in let other : (t.id == s.id) ≡ false = ground arith in rw other refl

-- The first row, and the rest of the loop.
pub Moved-cons :
    (cron : Cron) (now : ℕ) (s : Schedule) (rows : List Schedule) (db db1 db2 : Db) (one n : ℕ)
    → get_schedule s.id db ≡ some s
    → is_some (find (λ r. r.id == s.id) rows) ≡ false
    → Step cron now s db db1 one
    → Moved cron now rows db1 db2 n
    → Moved cron now (s ∷ rows) db db2 (one + n)
Moved-cons cron now s rows db db1 db2 one n found fresh step rest = record {
  advanced = (
    (
      step.next,
      step.asked,
      rest.others s.id fresh
          ∙ step.schedules s.id
          ∙ rw found (let mine : (s.id == s.id) ≡ true = ground arith in rw mine refl),
    ),
    rest.advanced,
  );
  occurred = (rest.kept (occurs s) step.occurred, rest.occurred);
  others = λ k absent.
      rest.others k (ground arith)
      ∙ step.schedules k
      ∙ unmoved s (advance now s.next_run_at step.next) (get_schedule k db) k (ground arith)
          (λ t e. get_schedule-id k db e);
  kept = λ p h. rest.kept p (step.kept p h);
  added = let first = step.added in let last = rest.added in omega arith;
}
