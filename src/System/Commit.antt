-- ===== src/System/Commit.antt =====
-- The two ends of a lease: the claim, and the commit by the worker that holds it.
use digitalocean.Base.{
  ℕ, ◌+◌, ◌≡◌, refl, String, Bool, true, false, ◌⊎◌, inl, inr, Option, none, some, ◌==◌, arith,
  Option-cases, Bool-cases, subst, sym, some_inj, ◌∙◌,
}
use native.Mathlib.Decide.{ℕ_discrete}
use digitalocean.Models.{Job, Json, RuntimeConfig, queued, running, is_status}
use digitalocean.Repository.Store.{Db, Exception, Result, ok, raise, get_job}
use digitalocean.Repository.Finish.{succeed, fail_attempt, retry_at, mark_succeeded}
use digitalocean.Repository.Invariant.{IsValid}
use digitalocean.Repository.Invariant.Marks.{
  holder, holds, mark_succeeded-IsValid, mark_failed_attempt-IsValid, mark_succeeded-fenced,
  mark_failed_attempt-fenced,
}
use digitalocean.Worker.{
  Outcome, returned, raised, expired, or_failure, record_failure, backoff_seconds, finish_attempt,
}
use digitalocean.System.{Lease}
use digitalocean.System.Evolve.{allows, Moves, Evolves, Evolves-same}
use digitalocean.System.Steps.{Unclaimed, Unclaimed-same, IsGood, IsGood-refl}

-- What a worker's lease says of the row that it was taken from, as long as the worker holds it.
abbrev pub Fences : ℕ → Lease → Option Job → Type 0
Fences w l none = Unit
Fences w l (some j) =
    (holder w j ≡ false)
    ⊎ ((l.attempt_no ≡ j.attempt_count + 1) × (l.job.max_retries ≡ j.max_retries))

succeed-Moves :
    (now next : ℕ) (result : Json) (j : Job)
    → is_status j.status running ≡ true
    → next ≡ j.attempt_count + 1
    → Moves j (succeed now next result j)
unfolding allows
succeed-Moves now next result j r n = ground arith

fail-Moves :
    (now next max_retries next_run_at : ℕ) (error : String) (j : Job)
    → is_status j.status running ≡ true
    → next ≡ j.attempt_count + 1
    → max_retries ≡ j.max_retries
    → Moves j (fail_attempt now next max_retries error next_run_at j)
unfolding allows
fail-Moves now next max_retries next_run_at error j r n m = ground arith

-- A queued job keeps its row.
abbrev pub Rests : Option Job → Option Job → Type 0
Rests o o' = (j : Job) → o ≡ some j → j.status ≡ queued → o' ≡ some j

-- A transaction that follows the state machine and leaves the queue.
pub record Spares (db db' : Db) : Type 0 where
  pub good : IsGood db db'
  pub rests : (k : ℕ) → Rests (get_job k db) (get_job k db')

-- A commit that moves one running job, and touches no other.
one-Spares :
    (k : ℕ) (j j' : Job) (db db' : Db)
    → get_job k db ≡ some j
    → IsValid db'
    → get_job k db' ≡ some j'
    → ((m : ℕ) → (k == m) ≡ false → get_job m db' ≡ get_job m db)
    → Moves j j'
    → is_status j'.status running ≡ false
    → is_status j.status running ≡ true
    → Spares db db'
one-Spares k j j' db db' e v e' others moves stops runs = record {
  good = record {
    valid = v;
    evolves = λ m. elim (ℕ_discrete k m) [
      | yes p ↦ subst (λ x. Evolves (get_job x db) (get_job x db')) p (rw (e, e') (inr moves))
      | no other ↦ Evolves-same (get_job m db) (get_job m db') (others m (ground arith))
    ];
    unclaimed = λ m. elim (ℕ_discrete k m) [
      | yes p ↦
          subst (λ x. Unclaimed (get_job x db) (get_job x db')) p (rw (e, e') (λ h. absurd (cc)))
      | no other ↦ Unclaimed-same (get_job m db) (get_job m db') (others m (ground arith))
    ];
  };
  rests = λ m waiting found waits. elim (ℕ_discrete k m) [
    | yes p ↦ absurd (
        let same : some j ≡ some waiting =
          sym e ∙ subst (λ x. get_job x db ≡ some waiting) (sym p) found in
        let job = some_inj same in
        let idle : is_status j.status running ≡ false = rw (job, waits) refl in cc)
    | no other ↦ others m (ground arith) ∙ found
  ];
}

-- A worker that holds a fenced row holds it for the next attempt.
pub still_fenced :
    (w : ℕ) (l : Lease) (j : Job)
    → holder w j ≡ true
    → Fences w l (some j)
    → (l.attempt_no ≡ j.attempt_count + 1) × (l.job.max_retries ≡ j.max_retries)
still_fenced w l j h (inl lost) = cc
still_fenced w l j h (inr same) = same

pub or_failure-ok :
    (text : Exception → String) (record_it : String → Db → Db × Result (Option Job))
    (m : Db × Result (Option Job)) {job : Option Job}
    → m.1 ≡ ok job
    → or_failure text record_it m ≡ m
or_failure-ok text record_it (db, ok job) e = refl
or_failure-ok text record_it (db, raise x) e = cc

module _ (text : Exception → String) (config : RuntimeConfig) (now w : ℕ) (l : Lease) (db : Db)
    (v : IsValid db) where
  abbrev finished_db : Outcome → Db
  finished_db outcome =
      (finish_attempt text config now l.job w l.attempt_no l.started_at outcome db).0

  module _ (j : Job) (e : get_job l.job.id db ≡ some j) (h : holder w j ≡ true)
      (n : l.attempt_no ≡ j.attempt_count + 1) (m : l.job.max_retries ≡ j.max_retries) where
    failure-Spares :
        (error : String) (is_timeout : Bool)
        → Spares db
            (record_failure config now l.job w l.attempt_no l.started_at error is_timeout db).0
    unfolding record_failure
    failure-Spares error is_timeout =
        let backoff = backoff_seconds config l.attempt_no in
        let due = retry_at now backoff l.attempt_no l.job.max_retries in
        let (valid, answer, mine, others) =
          mark_failed_attempt-IsValid now l.job.id w l.attempt_no l.started_at db j v e l.job error
            is_timeout backoff refl m h n in
        one-Spares l.job.id j (fail_attempt now l.attempt_no l.job.max_retries error due j) db _ e
          valid mine others
          (fail-Moves now l.attempt_no l.job.max_retries due error j (ground arith) n m)
          (ground arith) (ground arith)

    success-Spares : (result : Json) → Spares db (finished_db (returned result))
    unfolding finish_attempt
    success-Spares result =
        let (valid, answer, mine, others) =
          mark_succeeded-IsValid now l.job.id w l.attempt_no l.started_at db j v e result h n in
        let done = mark_succeeded now l.job.id w l.attempt_no l.started_at result db in
        subst (λ (r : Db × Result (Option Job)). Spares db r.0)
          (sym (
            or_failure-ok text
              (λ error. record_failure config now l.job w l.attempt_no l.started_at error false)
              done answer))
          (one-Spares l.job.id j (succeed now l.attempt_no result j) db done.0 e valid mine others
            (succeed-Moves now l.attempt_no result j (ground arith) n) refl (ground arith))

    held-Spares : (outcome : Outcome) → Spares db (finished_db outcome)
    unfolding finish_attempt
    held-Spares (returned result) = success-Spares result
    held-Spares (raised error) = failure-Spares error false
    held-Spares expired = failure-Spares "attempt timed out" true

  -- On consistent tables, when the worker does not hold the row of its job any more, the end of its
  -- attempt changes no table and answers the current row, whatever the outcome is.
  pub finish_attempt-fenced :
      (outcome : Outcome)
      → holds w (get_job l.job.id db) ≡ false
      → finish_attempt text config now l.job w l.attempt_no l.started_at outcome db
        ≡ (db, ok (get_job l.job.id db))
  unfolding finish_attempt record_failure
  finish_attempt-fenced (returned result) h =
      rw (mark_succeeded-fenced now l.job.id w l.attempt_no l.started_at db v h result)
  finish_attempt-fenced (raised error) h =
      mark_failed_attempt-fenced now l.job.id w l.attempt_no l.started_at db v h l.job error false _
        refl
  finish_attempt-fenced expired h =
      mark_failed_attempt-fenced now l.job.id w l.attempt_no l.started_at db v h l.job _ true _ refl

  fenced-Spares :
      (outcome : Outcome) → holds w (get_job l.job.id db) ≡ false → Spares db (finished_db outcome)
  fenced-Spares outcome h =
      subst (λ (r : Db × Result (Option Job)). Spares db r.0)
        (sym (finish_attempt-fenced outcome h))
        (record { good = IsGood-refl db v; rests = λ k j e waits. e })

  -- The end of an attempt, by a worker whose lease still fences the row or by one that lost it.
  pub finish_attempt-Spares :
      (outcome : Outcome) → Fences w l (get_job l.job.id db) → Spares db (finished_db outcome)
  finish_attempt-Spares outcome fence = elim (Option-cases (get_job l.job.id db)) [
    | inl gone ↦ fenced-Spares outcome (rw gone)
    | inr (j, e) ↦ elim (Bool-cases (holder w j)) [
      | inl h ↦ let (n, m) = still_fenced w l j h (rw e at fence) in held-Spares j e h n m outcome
      | inr lost ↦ fenced-Spares outcome (rw e lost)
    ]
  ]
