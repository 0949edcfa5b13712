-- ===== src/Postgres/System/Attempt.antt =====
-- The end of an attempt on PostgreSQL is the one on SQLite.
use digitalocean.Base.{
  ℕ, ◌≡◌, refl, String, Bool, true, false, Option, none, some, subst, sym, ap, ◌==◌, Bool-cases,
  inl, inr,
}
use digitalocean.Models.{Job, Json, RuntimeConfig}
use digitalocean.Repository.Store.{
  Db, Exception, Result, ok, raise, commit, get_job, insert_attempt,
}
use digitalocean.Repository.Finish.{is_held}
use digitalocean.Sql.{count, update}
use digitalocean.Repository.Finish as SqliteFinish
use digitalocean.Repository.Invariant.{IsValid}
use digitalocean.Worker as Sqlite
use digitalocean.Worker.{Outcome, returned, raised, expired, or_failure}
use digitalocean.Postgres.Finish.Agree.{mark_succeeded-agrees, mark_failed_attempt-agrees}
use digitalocean.Postgres.System.{record_failure, finish_attempt}

-- A transaction that raised has left the tables.
commit-raised :
    (db db1 : Db) (o : Option Db) (look : Db → Option Job) (e : Exception)
    → commit db o look ≡ (db1, raise e)
    → db1 ≡ db
commit-raised db db1 none look e h = cc
commit-raised db db1 (some db') look e h = absurd (
    let r : ◌≡◌ {A = Result (Option Job)} (ok (look db')) (raise e) =
      ap (λ (p : Db × Result (Option Job)). p.1) h in
    cc)

mark_succeeded-raised :
    (now k w attempt_no started_at : ℕ) (result : Json) (db db1 : Db) (e : Exception)
    → SqliteFinish.mark_succeeded now k w attempt_no started_at result db ≡ (db1, raise e)
    → db1 ≡ db
unfolding SqliteFinish.mark_succeeded
mark_succeeded-raised now k w attempt_no started_at result db db1 e h =
    let held = is_held k w in
    let attempt = SqliteFinish.succeeded_attempt now k w attempt_no started_at in
    let written = record db {
      jobs = update held (SqliteFinish.succeed now attempt_no result) db.jobs;
    } in
    elim (Bool-cases (count held db.jobs == 0)) [
      | inl lost ↦ absurd (
          let r : ◌≡◌ {A = Result (Option Job)} (ok (get_job k db)) (raise e) =
            ap (λ (p : Db × Result (Option Job)). p.1)
              (rw (lost, SqliteFinish.mark_succeeded) at h) in
          cc)
      | inr mine ↦
          commit-raised db db1 (insert_attempt attempt written) (get_job k) e
            (rw (mine, SqliteFinish.mark_succeeded) at h)
    ]

or_failure-agrees :
    (text : Exception → String) (f g : String → Db → Db × Result (Option Job))
    (m : Db × Result (Option Job))
    → ((e : Exception) (db1 : Db) → m ≡ (db1, raise e) → f (text e) db1 ≡ g (text e) db1)
    → or_failure text f m ≡ or_failure text g m
or_failure-agrees text f g (db1, ok job) same = refl
or_failure-agrees text f g (db1, raise e) same = same e db1 refl

record_failure-agrees :
    (config : RuntimeConfig) (now : ℕ) (job : Job) (w attempt_no started_at : ℕ) (error : String)
    (is_timeout : Bool) (db : Db)
    → IsValid db
    → record_failure config now job w attempt_no started_at error is_timeout db
      ≡ Sqlite.record_failure config now job w attempt_no started_at error is_timeout db
unfolding record_failure Sqlite.record_failure
record_failure-agrees config now job w attempt_no started_at error is_timeout db v =
    mark_failed_attempt-agrees now job w attempt_no started_at error is_timeout _ db v

pub finish_attempt-agrees :
    (text : Exception → String) (config : RuntimeConfig) (now : ℕ) (job : Job)
    (w attempt_no started_at : ℕ) (outcome : Outcome) (db : Db)
    → IsValid db
    → finish_attempt text config now job w attempt_no started_at outcome db
      ≡ Sqlite.finish_attempt text config now job w attempt_no started_at outcome db
unfolding finish_attempt Sqlite.finish_attempt
finish_attempt-agrees text config now job w attempt_no started_at (returned result) db v =
    rw (mark_succeeded-agrees now job.id w attempt_no started_at result db v) (
      or_failure-agrees text
        (λ error. record_failure config now job w attempt_no started_at error false)
        (λ error. Sqlite.record_failure config now job w attempt_no started_at error false)
        (SqliteFinish.mark_succeeded now job.id w attempt_no started_at result db)
        (λ e db1 h.
          record_failure-agrees config now job w attempt_no started_at (text e) false db1 (
            subst IsValid
              (sym (mark_succeeded-raised now job.id w attempt_no started_at result db db1 e h))
              v)))
finish_attempt-agrees text config now job w attempt_no started_at (raised error) db v =
    record_failure-agrees config now job w attempt_no started_at error false db v
finish_attempt-agrees text config now job w attempt_no started_at expired db v =
    record_failure-agrees config now job w attempt_no started_at "attempt timed out" true db v
