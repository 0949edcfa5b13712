-- ===== src/System/Round.antt =====
-- A whole round of a worker thread: `process_one` of app/worker.py.
use digitalocean.Base.{
  ℕ, ◌+◌, ◌≤◌, ◌≡◌, refl, String, Bool, true, false, Option, none, some, ◌==◌, leb, if◌then◌else◌,
  arith, subst, sym, ap, ◌∙◌,
}
use native.Mathlib.Decide.{ℕ_discrete}
use digitalocean.Models.{Job, Json, RuntimeConfig, queued, succeeded, dead_lettered}
use digitalocean.Repository.Store.{Db, Exception, Result, ok, get_job}
use digitalocean.Repository.Claim.{claim_next_job, lock}
use digitalocean.Repository.Claim.Pick.{OutranksAny}
use digitalocean.Repository.Claim.Order.{Claims, due_job, claim_next_job_lem}
use digitalocean.Repository.Finish.{mark_succeeded}
use digitalocean.Repository.Invariant.{IsValid}
use digitalocean.Repository.Invariant.Quiet.{claim_next_job-IsValid}
use digitalocean.Repository.Invariant.Marks.{
  holder, mark_succeeded-IsValid, mark_failed_attempt-IsValid,
}
use digitalocean.Worker.{
  Outcome, returned, raised, expired, record_failure, backoff_seconds, finish_attempt,
  finish_claimed, process_one,
}
use digitalocean.System.Commit.{or_failure-ok}

-- A failed attempt: with a retry left the job waits for its backoff, without one it is dead.
abbrev pub failed_job : RuntimeConfig → ℕ → String → Job → Job
failed_job config now error j =
    let attempt_no = j.attempt_count + 1 in
    let retries = leb attempt_no j.max_retries in
    record j {
      status = if retries then queued else dead_lettered;
      attempt_count = attempt_no;
      last_error = some error;
      run_at = if retries then now + backoff_seconds config attempt_no else now;
      locked_by = none;
      locked_at = none;
      updated_at = now;
      finished_at = if retries then none else some now;
    }

-- What the end of an attempt makes of the row of its job.
abbrev pub ended_job : RuntimeConfig → ℕ → Outcome → Job → Job
ended_job config now (returned result) j = record j {
  status = succeeded;
  result = some result;
  attempt_count = j.attempt_count + 1;
  last_error = none;
  locked_by = none;
  locked_at = none;
  updated_at = now;
  finished_at = some now;
}
ended_job config now (raised error) j = failed_job config now error j
ended_job config now expired j = failed_job config now "attempt timed out" j

pub eq_self : (n : ℕ) → (n == n) ≡ true
eq_self n = ground arith

-- The tables and the answer after the job of identifier k became j'.
abbrev pub Commits : ℕ → Job → Db → Db × Result (Option Job) → Type 0
Commits k j' db (db', r) =
    IsValid db'
    × (r ≡ ok (some j'))
    × ((m : ℕ) → get_job m db' ≡ (if k == m then some j' else get_job m db))

pointwise :
    (k : ℕ) (j' : Job) (db db' : Db)
    → get_job k db' ≡ some j'
    → ((m : ℕ) → (k == m) ≡ false → get_job m db' ≡ get_job m db)
    → (m : ℕ) → get_job m db' ≡ (if k == m then some j' else get_job m db)
pointwise k j' db db' mine others m = elim (ℕ_discrete k m) [
  | yes e ↦
      let same : (k == m) ≡ true = ground arith in
      rw same (subst (λ x. get_job x db' ≡ some j') e mine)
  | no ne ↦ let other : (k == m) ≡ false = ground arith in rw other (others m other)
]

module _ (text : Exception → String) (config : RuntimeConfig) (now w started_at : ℕ) (db : Db)
    (j : Job) (v : IsValid db) (e : get_job j.id db ≡ some j) (h : holder w j ≡ true) where
  failure-Commits :
      (error : String) (is_timeout : Bool)
      → Commits j.id
          (failed_job config now error j)
          db
          (record_failure config now j w (j.attempt_count + 1) started_at error is_timeout db)
  unfolding record_failure
  failure-Commits error is_timeout =
      let attempt_no = j.attempt_count + 1 in
      let backoff = backoff_seconds config attempt_no in
      let (valid, answer, mine, others) =
        mark_failed_attempt-IsValid now j.id w attempt_no started_at db j v e j error is_timeout
          backoff refl refl h refl in
      (valid, answer, pointwise j.id (failed_job config now error j) db _ mine others)

  success-Commits :
      (result : Json)
      → Commits j.id
          (ended_job config now (returned result) j)
          db
          (mark_succeeded now j.id w (j.attempt_count + 1) started_at result db)
  success-Commits result =
      let (valid, answer, mine, others) =
        mark_succeeded-IsValid now j.id w (j.attempt_count + 1) started_at db j v e result h refl in
      (valid, answer, pointwise j.id (ended_job config now (returned result) j) db _ mine others)

  -- On consistent tables, when the worker holds the row of the job, the end of the attempt that
  -- follows the ones of the row raises nothing, whatever the outcome is: it answers the row that
  -- the outcome asks for (succeeded, queued again after the backoff, or dead_lettered), writes that
  -- row and no other, and leaves the tables consistent.
  pub finish_attempt-Commits :
      (outcome : Outcome)
      → Commits j.id
          (ended_job config now outcome j)
          db
          (finish_attempt text config now j w (j.attempt_count + 1) started_at outcome db)
  unfolding finish_attempt
  finish_attempt-Commits (returned result) =
      let done = mark_succeeded now j.id w (j.attempt_count + 1) started_at result db in
      subst (Commits j.id (ended_job config now (returned result) j) db)
        (sym (
          or_failure-ok text
            (λ error. record_failure config now j w (j.attempt_count + 1) started_at error false)
            done (success-Commits result).1))
        (success-Commits result)
  finish_attempt-Commits (raised error) = failure-Commits error false
  finish_attempt-Commits expired = failure-Commits "attempt timed out" true

-- What `process_one` answers: nothing if no job is due; otherwise a job that was queued and due, and
-- outranks all due jobs, was locked, run once, and its end is committed.
abbrev pub Rounds :
    RuntimeConfig
    → (handler : Job → ℕ → Outcome) → (claimed_at now worker_id : ℕ) → Db
    → Db × Option (Result (Option Job))
    → Type 0
Rounds config handler claimed_at now w db (db', none) =
    (db' ≡ db) × ((k : ℕ) → due_job claimed_at (get_job k db) ≡ none)
Rounds config handler claimed_at now w db (db', some r) =
    (row : Job) × (get_job row.id db ≡ some row)
    × (row.status ≡ queued)
    × (row.run_at ≤ claimed_at)
    × ((k : ℕ) → OutranksAny row (due_job claimed_at (get_job k db)))
    × IsValid db'
    × (let locked = lock claimed_at w row in
        let ended = ended_job config now (handler locked (row.attempt_count + 1)) locked in
        (r ≡ ok (some ended)) × (get_job row.id db' ≡ some ended))

module _ (text : Exception → String) (config : RuntimeConfig) (handler : Job → ℕ → Outcome)
    (others : Db → Db) (claimed_at started_at now w : ℕ) where
  -- The row at the end of the round.
  abbrev end_of : Job → Job
  end_of j = ended_job config now (handler j (j.attempt_count + 1)) j

  claimed-Rounds :
      (db : Db) (r : Db × Option Job)
      → IsValid r.0
      → Claims claimed_at w db r
      → ((d : Db) → IsValid d → IsValid (others d))
      → ((d : Db) (k : ℕ) (j : Job)
          → get_job k d ≡ some j
          → holder w j ≡ true
          → get_job k (others d) ≡ some j)
      → Rounds config handler claimed_at now w db
          (finish_claimed text config handler others started_at now w r)
  claimed-Rounds db (db1, none) v idle keeps leaves = idle
  claimed-Rounds db (db1, some claimed) v (row, found, waits, due, locked, outranks, after) keeps
        leaves =
      let mine : get_job row.id db1 ≡ some claimed = after row.id ∙ rw (eq_self row.id) in
      let held : holder w claimed ≡ true = rw locked (ground arith) in
      let named : claimed.id ≡ row.id = ap (λ (x : Job). x.id) locked in
      let still = leaves db1 row.id claimed mine held in
      let still' : get_job claimed.id (others db1) ≡ some claimed =
        subst (λ m. get_job m (others db1) ≡ some claimed) (sym named) still in
      let outcome = handler claimed (claimed.attempt_count + 1) in
      let (valid, answer, all) =
        finish_attempt-Commits text config now w started_at (others db1) claimed (keeps db1 v)
          still' held outcome in
      let done =
        finish_attempt text config now claimed w (claimed.attempt_count + 1) started_at outcome
          (others db1) in
      let here : get_job claimed.id done.0 ≡ some (end_of claimed) =
        all claimed.id ∙ rw (eq_self claimed.id) in
      (
        row,
        found,
        waits,
        due,
        outranks,
        valid,
        subst (λ x. (done.1 ≡ ok (some (end_of x))) × (get_job row.id done.0 ≡ some (end_of x)))
            locked (answer, subst (λ m. get_job m done.0 ≡ some (end_of claimed)) named here),
      )

  -- On consistent tables, when the commits of the others during the attempt keep the tables
  -- consistent and leave every row that this worker holds, a round of a worker answers nothing,
  -- changes nothing and there is no due job; or it locks a job that was queued with a run_at no
  -- later than the time of the claim and that outranks every due job, runs the handler on it with
  -- the next attempt number, and commits and answers the row that the outcome asks for, on tables
  -- that are consistent again.
  pub process_one_lem :
      (db : Db)
      → IsValid db
      → ((d : Db) → IsValid d → IsValid (others d))
      → ((d : Db) (k : ℕ) (j : Job)
          → get_job k d ≡ some j
          → holder w j ≡ true
          → get_job k (others d) ≡ some j)
      → Rounds config handler claimed_at now w db
          (process_one text config handler others claimed_at started_at now w db)
  unfolding process_one
  process_one_lem db v keeps leaves =
      claimed-Rounds db (claim_next_job claimed_at w db) (claim_next_job-IsValid claimed_at w db v)
        (claim_next_job_lem claimed_at w db v) keeps leaves
