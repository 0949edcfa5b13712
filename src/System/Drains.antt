-- ===== src/System/Drains.antt =====
-- A worker that works alone gets to the end of the queue: each round that claims a job uses up an
-- attempt.
use digitalocean.Base.{
  ℕ, zero, suc, ◌+◌, ◌≤◌, ◌<◌, ◌≡◌, refl, ◌⊎◌, String, true, false, Option, none, some, List, ◌==◌,
  if◌then◌else◌, arith, Bool-cases, inl, inr, ap, sym, ◌∙◌, subst,
}
use native.Mathlib.Decide.{ℕ_discrete}
use digitalocean.Models.{Job, RuntimeConfig}
use digitalocean.Repository.Store.{Db, Exception, Result, get_job}
use digitalocean.Repository.Claim.{claim_next_job}
use digitalocean.Repository.Claim.Order.{due_job, Claims, claim_next_job_lem}
use digitalocean.Repository.Invariant.{IsValid, Agrees, has_attempt, has_dead_letter}
use digitalocean.Repository.Invariant.Quiet.{claim_next_job-IsValid}
use digitalocean.Repository.Invariant.Marks.{holder}
use digitalocean.Worker.{Outcome, finish_claimed, process_one}
use digitalocean.System.Round.{ended_job, eq_self, finish_attempt-Commits}
use digitalocean.System.Left.{
  attempts_left, sum_over, is_in, ids, total_left, sum_over_drop, Covers, ids-Covers,
  ended_job-left,
}

-- The times of a round.
pub record Moment : Type 0 where
  pub claimed_at : ℕ
  pub started_at : ℕ
  pub now : ℕ

abbrev pub IsIdle : ℕ → Db → Type 0
IsIdle claimed_at db = (k : ℕ) → due_job claimed_at (get_job k db) ≡ none

-- A round alone: no job is due, or one job has used up an attempt and every other job is as before.
abbrev Alone : ℕ → Db → Db × Option (Result (Option Job)) → Type 0
Alone claimed_at db (db', none) = IsIdle claimed_at db
Alone claimed_at db (db', some r) =
    IsValid db'
    × ((row : Job) × (get_job row.id db ≡ some row)
        × ((ended : Job) × (attempts_left (some ended) < attempts_left (some row))
            × ((m : ℕ) → get_job m db' ≡ (if row.id == m then some ended else get_job m db))))

-- Two writes of the same row.
merged :
    (k m : ℕ) (x z y y' : Option Job)
    → y' ≡ (if k == m then z else y)
    → (if k == m then x else y') ≡ (if k == m then x else y)
merged k m x z y y' e = elim (Bool-cases (k == m)) [
  | inl here ↦ rw here refl
  | inr there ↦ rw there (e ∙ rw there refl)
]

-- What is left after one of the rows changed.
changed-left :
    (k : ℕ) (ended row : Job) (db db' : Db)
    → get_job k db ≡ some row
    → attempts_left (some ended) < attempts_left (some row)
    → ((m : ℕ) → get_job m db' ≡ (if k == m then some ended else get_job m db))
    → (m : ℕ) → attempts_left (get_job m db') ≤ attempts_left (get_job m db)
changed-left k ended row db db' found less all m = elim (ℕ_discrete k m) [
  | yes e ↦
      let same : (k == m) ≡ true = ground arith in
      let there : get_job m db ≡ some row = subst (λ x. get_job x db ≡ some row) e found in
      rw (all m, same, there) (omega arith)
  | no ne ↦ let other : (k == m) ≡ false = ground arith in rw (all m, other) (omega arith)
]

-- A round that claims a job keeps the jobs and leaves fewer attempts.
Alone-left :
    (ks : List ℕ) (claimed_at : ℕ) (db : Db) (r : Db × Option (Result (Option Job)))
    → Covers ks db
    → Alone claimed_at db r
    → IsIdle claimed_at db
      ⊎ (IsValid r.0
          × Covers ks r.0
          × (sum_over (λ k. attempts_left (get_job k r.0)) ks
              < sum_over (λ k. attempts_left (get_job k db)) ks))
Alone-left ks claimed_at db (db', none) covers idle = inl idle
Alone-left ks claimed_at db (db', some r) covers (valid, (row, found, (ended, less, all))) = inr (
  valid,
  λ k j e. elim (Bool-cases (row.id == k)) [
    | inl here ↦
        let same : row.id ≡ k = ground arith in
        subst (λ x. is_in x ks ≡ true) same (covers row.id row found)
    | inr there ↦ covers k j (sym (all k ∙ rw there refl) ∙ e)
  ],
  sum_over_drop (λ k. attempts_left (get_job k db)) (λ k. attempts_left (get_job k db')) row.id ks
      (changed-left row.id ended row db db' found less all)
      (rw (all row.id, eq_self row.id, found) less) (covers row.id row found),
)

module _ (text : Exception → String) (config : RuntimeConfig) (handler : Job → ℕ → Outcome)
    (w : ℕ) where
  claimed-Alone :
      (t : Moment) (db : Db) (r : Db × Option Job)
      → IsValid db
      → IsValid r.0
      → Claims t.claimed_at w db r
      → Alone t.claimed_at db (finish_claimed text config handler (λ d. d) t.started_at t.now w r)
  claimed-Alone t db (db1, none) v v1 idle = idle.1
  claimed-Alone t db (db1, some claimed) v v1 (row, found, waits, due, locked, outranks, after) =
      let named : claimed.id ≡ row.id = ap (λ (x : Job). x.id) locked in
      let mine : get_job claimed.id db1 ≡ some claimed =
        after claimed.id ∙ rw named (rw (eq_self row.id) refl) in
      let held : holder w claimed ≡ true = rw locked (ground arith) in
      let outcome = handler claimed (claimed.attempt_count + 1) in
      let (valid, answer, all) =
        finish_attempt-Commits text config t.now w t.started_at db1 claimed v1 mine held outcome in
      let fits : Agrees row.id (some row) (λ n. has_attempt row.id n db)
          (has_dead_letter row.id db) =
        rw found at (v.agrees row.id) in
      let few : row.attempt_count ≤ row.max_retries = ground arith in
      let less = ended_job-left config t.claimed_at t.now w outcome row waits few in
      (
        valid,
        (
          row,
          found,
          (
            ended_job config t.now outcome claimed,
            subst
                (λ (x : Job).
                  attempts_left (some (ended_job config t.now outcome x))
                  < attempts_left (some row))
                (sym locked) less,
            λ m. all m ∙ rw named (merged row.id m _ (some claimed) _ _ (after m)),
          ),
        ),
      )

  abbrev round : Moment → Db → Db × Option (Result (Option Job))
  round t db = process_one text config handler (λ d. d) t.claimed_at t.started_at t.now w db

  round-Alone : (t : Moment) (db : Db) → IsValid db → Alone t.claimed_at db (round t db)
  unfolding process_one
  round-Alone t db v =
      claimed-Alone t db (claim_next_job t.claimed_at w db) v
        (claim_next_job-IsValid t.claimed_at w db v) (claim_next_job_lem t.claimed_at w db v)

  -- The tables after n rounds.
  unfoldable pub after_rounds : ℕ → (ℕ → Moment) → Db → Db
  after_rounds zero times db = db
  after_rounds (suc n) times db = after_rounds n (λ i. times (suc i)) (round (times 0) db).0

  abbrev pub GetsIdle : ℕ → (ℕ → Moment) → Db → Type 0
  GetsIdle n times db = (i : ℕ) × (i ≤ n) × IsIdle (times i).claimed_at (after_rounds i times db)

  gets_idle :
      (n : ℕ) (ks : List ℕ) (times : ℕ → Moment) (db : Db)
      → IsValid db
      → Covers ks db
      → sum_over (λ k. attempts_left (get_job k db)) ks ≤ n
      → GetsIdle n times db
  unfolding after_rounds
  gets_idle zero ks times db v covers few =
      elim (Alone-left ks (times 0).claimed_at db (round (times 0) db) covers
        (round-Alone (times 0) db v)) [
          | inl idle ↦ (0, omega arith, idle)
          | inr (v', covers', less) ↦ absurd (omega arith)
        ]
  gets_idle (suc n) ks times db v covers few =
      elim (Alone-left ks (times 0).claimed_at db (round (times 0) db) covers
        (round-Alone (times 0) db v)) [
          | inl idle ↦ (0, omega arith, idle)
          | inr (v', covers', less) ↦
              let (i, bound, idle) =
                gets_idle n ks (λ i. times (suc i)) (round (times 0) db).0 v' covers'
                  (omega arith) in
              (suc i, omega arith, idle)
        ]

  -- A worker that works alone on consistent tables finds no due job after at most as many rounds as
  -- the jobs have attempts left, at whatever times the rounds are and whatever the outcomes of the
  -- handler are: the bound is the sum of max_retries + 1 - attempt_count over the jobs that are
  -- queued or running.
  pub worker-GetsIdle :
      (times : ℕ → Moment) (db : Db) → IsValid db → GetsIdle (total_left db) times db
  worker-GetsIdle times db v =
      gets_idle (total_left db) (ids db) times db v (ids-Covers db) (omega arith)
