-- ===== src/Repository/Schedules/Materialize/Once.antt =====
-- The body of the loop of `materialize_due_schedules`, run twice for one occurrence.
use digitalocean.Base.{
  ℕ, ◌≡◌, refl, Bool, true, false, ◌&&◌, Option, none, some, List, [], ◌∷◌, ◌++◌, ◌==◌, is_some,
  is_same, or_else, if◌then◌else◌, arith, Option-cases, Bool-cases, inl, inr, subst, fst_eq,
  some_inj, ◌∙◌,
}
use digitalocean.Models.{Job, Schedule}
use digitalocean.Sql.{find, update}
use digitalocean.Sql.Update.{find-stronger, is_some-find-append}
use digitalocean.Repository.Store.{Db, get_job, insert_job, clashes}
use digitalocean.Repository.Schedules.{Cron}
use digitalocean.Repository.Schedules.Materialize.{occurrence, advance, materialize_row}

-- The job of the occurrence that a schedule waits for.
abbrev pub occurs : Schedule → Job → Bool
occurs s j = is_same j.schedule_id (some s.id) && is_same j.scheduled_for (some s.next_run_at)

module _ (s : Schedule) where
  clash-occurs :
      (now job_id : ℕ) (rows : List Job)
      → is_some (find (clashes (occurrence now job_id s)) rows) ≡ true
      → is_some (find (λ j. j.id == job_id) rows) ≡ false
      → is_some (find (occurs s) rows) ≡ true
  clash-occurs now job_id [] h fresh = cc
  clash-occurs now job_id (j ∷ rows) h fresh = ground (arith, clash-occurs now job_id rows)

  -- Whether or not the row was inserted, the occurrence has its job.
  inserted-occurs :
      (now job_id : ℕ) (db : Db)
      → get_job job_id db ≡ none
      → is_some (find (occurs s) (or_else (insert_job (occurrence now job_id s) db) db).jobs) ≡ true
  unfolding insert_job get_job
  inserted-occurs now job_id db fresh =
      elim (Bool-cases (is_some (find (clashes (occurrence now job_id s)) db.jobs))) [
        | inl clash ↦ rw clash (clash-occurs now job_id db.jobs clash (rw fresh refl))
        | inr free ↦
            rw free
              (is_some-find-append (occurs s) db.jobs (occurrence now job_id s) ∙ ground arith)
      ]

  -- With a fresh identifier, the row clashes exactly when the occurrence has its job.
  clashes-occurs :
      (now job_id : ℕ) (db : Db)
      → get_job job_id db ≡ none
      → is_some (find (clashes (occurrence now job_id s)) db.jobs)
        ≡ is_some (find (occurs s) db.jobs)
  unfolding get_job
  clashes-occurs now job_id db fresh =
      elim (Bool-cases (is_some (find (clashes (occurrence now job_id s)) db.jobs))) [
        | inl clash ↦ rw clash (rw (clash-occurs now job_id db.jobs clash (rw fresh refl)) refl)
        | inr free ↦
            let gone =
              find-stronger (clashes (occurrence now job_id s)) (occurs s) db.jobs
                (λ j h. ground arith) free in
            rw (free, gone) refl
      ]

  -- What the first run makes of the jobs, and what it counts.
  abbrev pub Occurs : (now job_id : ℕ) → Db → Db × ℕ → Type 0
  Occurs now job_id db (db1, n) =
      if is_some (find (occurs s) db.jobs)
      then (db1.jobs ≡ db.jobs) × (n ≡ 0)
      else (db1.jobs ≡ db.jobs ++ (occurrence now job_id s ∷ [])) × (n ≡ 1)

  -- The answer of the body, with whatever schedules.
  inserted-Occurs :
      (now job_id : ℕ) (db : Db) (schedules : List Schedule)
      → get_job job_id db ≡ none
      → let inserted = insert_job (occurrence now job_id s) db in
        Occurs now job_id db (
          record (or_else inserted db) { recurring_schedules = schedules },
          if is_some inserted then 1 else 0,
        )
  unfolding insert_job
  inserted-Occurs now job_id db schedules fresh =
      let same = clashes-occurs now job_id db fresh in
      elim (Bool-cases (is_some (find (occurs s) db.jobs))) [
        | inl there ↦ rw (same, there) (refl, refl)
        | inr free ↦ rw (same, free) (refl, refl)
      ]

  -- An occurrence that has its job gets no other.
  occurs-insert_job :
      (now job_id : ℕ) (db : Db)
      → is_some (find (occurs s) db.jobs) ≡ true
      → insert_job (occurrence now job_id s) db ≡ none
  unfolding insert_job
  occurs-insert_job now job_id db there =
      elim (Bool-cases (is_some (find (clashes (occurrence now job_id s)) db.jobs))) [
        | inl clash ↦ rw clash refl
        | inr free ↦ absurd (
            let gone =
              find-stronger (clashes (occurrence now job_id s)) (occurs s) db.jobs
                (λ j h. ground arith) free in
            cc)
      ]

-- When the body of the loop of the materializer ran for a schedule with a fresh identifier and
-- raised nothing, it added the job of the occurrence and counted one if the occurrence had no job,
-- and left the jobs as they were and counted none if it had one; the occurrence has a job
-- afterwards; and running the body again for the same occurrence, at any time and with any
-- identifier, raises nothing, counts no job and leaves the jobs as they are, also where a second
-- scheduler still has the old row.
pub materialize_row-once :
    (cron : Cron) (now now' job_id job_id' n : ℕ) (s : Schedule) (db db1 : Db)
    → get_job job_id db ≡ none
    → materialize_row cron now job_id s db ≡ some (db1, n)
    → Occurs s now job_id db (db1, n)
      × (is_some (find (occurs s) db1.jobs) ≡ true)
      × ((db2 : Db) × (materialize_row cron now' job_id' s db1 ≡ some (db2, 0))
          × (db2.jobs ≡ db1.jobs))
unfolding materialize_row
materialize_row-once cron now now' job_id job_id' n s db db1 fresh e =
    elim (Option-cases (cron s.cron_expression s.next_run_at)) [
      | inl bad ↦ absurd (
          let r : ◌≡◌ {A = Option (Db × ℕ)} none (some (db1, n)) = rw (bad, materialize_row) at e in
          cc)
      | inr (next_run_at, good) ↦
          let kept = or_else (insert_job (occurrence now job_id s) db) db in
          let moved = λ (d : Db) (at_time : ℕ). record d {
            recurring_schedules =
                update (λ t. t.id == s.id) (advance at_time s.next_run_at next_run_at)
                  d.recurring_schedules;
          } in
          let answer : some
                (moved kept now, if is_some (insert_job (occurrence now job_id s) db) then 1 else 0)
              ≡ some (db1, n) =
            rw (good, materialize_row) at e in
          let same : moved kept now ≡ db1 = fst_eq (some_inj answer) in
          let there : is_some (find (occurs s) db1.jobs) ≡ true =
            subst (λ (d : Db). is_some (find (occurs s) d.jobs) ≡ true) same
              (inserted-occurs s now job_id db fresh) in
          let none_new = occurs-insert_job s now' job_id' db1 there in
          (
            subst (Occurs s now job_id db) (some_inj answer)
                (inserted-Occurs s now job_id db (moved kept now).recurring_schedules fresh),
            there,
            (moved db1 now', rw (materialize_row, good) (rw none_new refl), refl),
          )
    ]
