-- ===== src/Postgres/Finish/Agree.antt =====
-- The ends of an attempt: the two repositories agree on consistent tables.
use mathlib.Core.Option
use digitalocean.Base.{
  ℕ, ◌≡◌, refl, String, Bool, true, false, Option, none, some, if◌then◌else◌, arith, Option-cases,
  Bool-cases, inl, inr, some_inj, ap, ◌∙◌, subst,
}
use digitalocean.Models.{Job, Attempt, Json, DeadLetter, running, is_status}
use digitalocean.Sql.{update, count, first, returning}
use digitalocean.Sql.Returning.{first-returning, delete-absent}
use digitalocean.Repository.Store.{Db, commit, get_job, insert_attempt, replace_dead_letter}
use digitalocean.Repository.Finish as Sqlite
use digitalocean.Repository.Finish.{
  is_held, succeed, succeeded_attempt, will_retry, fail_attempt, failed_attempt, retry_at,
}
use digitalocean.Repository.Invariant.{Agrees, IsValid, has_attempt, has_dead_letter}
use digitalocean.Repository.Invariant.Views.{
  get_job-update, get_job-same, get_job-id, count-job, jobs-bury, has_dead_letter-same,
}
use digitalocean.Repository.Invariant.Marks.{holder}
use digitalocean.Postgres.Finish.{
  upsert_dead_letter, bury, succeed_row, mark_succeeded, fail_row, mark_failed_attempt,
}

-- A job without a dead letter gets the same one.
pub bury-agrees :
    (now k : ℕ) (payload : Json) (error : String) (attempt_no max_retries : ℕ) (db : Db)
    → has_dead_letter k db ≡ false
    → bury now k payload error attempt_no max_retries db
      ≡ Sqlite.bury now k payload error attempt_no max_retries db
unfolding bury Sqlite.bury upsert_dead_letter replace_dead_letter has_dead_letter
bury-agrees now k payload error attempt_no max_retries db absent =
    let same = delete-absent (λ (d : DeadLetter). d.job_id) k db.dead_letters absent in
    rw (absent, same) refl

-- The insert into `job_attempts` touches no other table.
pub insert_attempt-others :
    (a : Attempt) (db db' : Db)
    → insert_attempt a db ≡ some db'
    → (db'.jobs ≡ db.jobs) × (db'.dead_letters ≡ db.dead_letters)
unfolding insert_attempt
insert_attempt-others a db db' e = ground arith

-- A running job of consistent tables has no dead letter.
pub running-alive :
    (k : ℕ) (db : Db) (j : Job)
    → IsValid db
    → get_job k db ≡ some j
    → is_status j.status running ≡ true
    → has_dead_letter k db ≡ false
running-alive k db j v e runs =
    let fits : Agrees k (some j) (λ n. has_attempt k n db) (has_dead_letter k db) =
      rw e at (v.agrees k) in
    fits.3 ∙ ground arith

module _ (k w : ℕ) (f : Job → Job) (db : Db) (v : IsValid db) where
  abbrev returned : Option Job
  returned = first (returning (is_held k w) f db.jobs)

  returned_lem :
      returned
      ≡ elim (get_job k db) [ none ↦ none | some j ↦ if holder w j then some (f j) else none ]
  unfolding get_job
  returned_lem = first-returning (λ (j : Job). j.id) k (holder w) f db.jobs v.keys

  -- The tables after the update.
  abbrev written : Db
  written = record db { jobs = update (is_held k w) f db.jobs }

  written_lem :
      ((j : Job) → (f j).id ≡ j.id)
      → (j : Job) → get_job k db ≡ some j
      → holder w j ≡ true
      → get_job k written ≡ some (f j)
  written_lem same j e h =
      get_job-update (is_held k w) f db k same
      ∙ rw e (let named = get_job-id k db e in ground arith)

  -- The row that the update returned is the one that a lookup finds after the commit.
  commit-agrees :
      (o : Option Db) (row : Job)
      → ((db' : Db) → o ≡ some db' → get_job k db' ≡ some row)
      → commit db o (λ db'. some row) ≡ commit db o (get_job k)
  commit-agrees none row h = refl
  commit-agrees (some db') row h = rw (h db' refl) refl

-- Whoever calls it, and whether or not the lease is held.
pub mark_succeeded-agrees :
    (now k w attempt_no started_at : ℕ) (result : Json) (db : Db)
    → IsValid db
    → mark_succeeded now k w attempt_no started_at result db
      ≡ Sqlite.mark_succeeded now k w attempt_no started_at result db
unfolding mark_succeeded Sqlite.mark_succeeded succeed_row
mark_succeeded-agrees now k w attempt_no started_at result db v =
    let f = succeed now attempt_no result in
    let attempt = succeeded_attempt now k w attempt_no started_at in
    let rows = returned_lem k w f db v in
    let hits = count-job k (holder w) db v.keys in
    elim (Option-cases (get_job k db)) [
      | inl gone ↦
          let none_left : returned k w f db v ≡ none = rows ∙ rw gone refl in
          let no_hit : count (is_held k w) db.jobs ≡ 0 = hits ∙ rw gone refl in
          rw (none_left, no_hit) refl
      | inr (j, e) ↦ elim (Bool-cases (holder w j)) [
        | inl h ↦
            rw (rows, hits)
              (rw (e, h, succeed_row)
                (commit-agrees k w f db v (insert_attempt attempt (written k w f db v)) (f j)
                  (λ db' inserted.
                    get_job-same k (written k w f db v) db'
                      (insert_attempt-others attempt (written k w f db v) db' inserted).0
                    ∙ written_lem k w f db v (λ x. refl) j e h)))
        | inr lost ↦
            let none_left : returned k w f db v ≡ none = rows ∙ rw (e, lost) refl in
            let no_hit : count (is_held k w) db.jobs ≡ 0 = hits ∙ rw (e, lost) refl in
            rw (none_left, no_hit) refl
      ]
    ]

map-some :
    (g : Db → Db) (o : Option Db) {db' : Db}
    → Option.map g o ≡ some db'
    → (db1 : Db) × (o ≡ some db1) × (g db1 ≡ db')
map-some g none e = cc
map-some g (some db1) e = (db1, refl, some_inj e)

pub map-agrees {ℓ} :
    {A : Type ℓ} (g h : Db → A) (o : Option Db)
    → ((db' : Db) → o ≡ some db' → g db' ≡ h db')
    → Option.map g o ≡ Option.map h o
map-agrees g h none same = refl
map-agrees g h (some db') same = ap some (same db' refl)

pub mark_failed_attempt-agrees :
    (now : ℕ) (job : Job) (w attempt_no started_at : ℕ) (error : String) (is_timeout : Bool)
    (backoff : ℕ) (db : Db)
    → IsValid db
    → mark_failed_attempt now job w attempt_no started_at error is_timeout backoff db
      ≡ Sqlite.mark_failed_attempt now job w attempt_no started_at error is_timeout backoff db
unfolding mark_failed_attempt Sqlite.mark_failed_attempt fail_row
mark_failed_attempt-agrees now job w attempt_no started_at error is_timeout backoff db v =
    let k = job.id in
    let f =
      fail_attempt now attempt_no job.max_retries error
        (retry_at now backoff attempt_no job.max_retries) in
    let attempt = failed_attempt now k w attempt_no started_at error is_timeout in
    let rows = returned_lem k w f db v in
    let hits = count-job k (holder w) db v.keys in
    elim (Option-cases (get_job k db)) [
      | inl gone ↦
          let none_left : returned k w f db v ≡ none = rows ∙ rw gone refl in
          let no_hit : count (is_held k w) db.jobs ≡ 0 = hits ∙ rw gone refl in
          rw (none_left, no_hit) refl
      | inr (j, e) ↦ elim (Bool-cases (holder w j)) [
        | inl h ↦
            let mid = written k w f db v in
            let buries = bury now k job.payload error attempt_no job.max_retries in
            let replaces = Sqlite.bury now k job.payload error attempt_no job.max_retries in
            let same : Option.map buries (insert_attempt attempt mid)
                ≡ Option.map replaces (insert_attempt attempt mid) =
              map-agrees buries replaces (insert_attempt attempt mid) (λ db1 inserted.
                bury-agrees now k job.payload error attempt_no job.max_retries db1 (
                  has_dead_letter-same k db db1 (insert_attempt-others attempt mid db1 inserted).1
                  ∙ running-alive k db j v e (ground arith))) in
            rw (rows, hits)
              (rw (e, h, fail_row, same)
                (commit-agrees k w f db v (Option.map replaces (insert_attempt attempt mid)) (f j)
                  (λ db' buried.
                    let (db1, inserted, last) =
                      map-some replaces (insert_attempt attempt mid) buried in
                    let kept =
                      (jobs-bury now k attempt_no job.payload error job.max_retries db1).0 in
                    get_job-same k db1 db' (subst (λ (d : Db). d.jobs ≡ db1.jobs) last kept)
                    ∙ get_job-same k mid db1 (insert_attempt-others attempt mid db1 inserted).0
                    ∙ written_lem k w f db v (λ x. refl) j e h)))
        | inr lost ↦
            let none_left : returned k w f db v ≡ none = rows ∙ rw (e, lost) refl in
            let no_hit : count (is_held k w) db.jobs ≡ 0 = hits ∙ rw (e, lost) refl in
            rw (none_left, no_hit) refl
      ]
    ]
