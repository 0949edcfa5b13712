-- ===== src/Tests/Samples.antt =====
-- The sample tables: a queue of three jobs, as app/worker.py would meet it.
use digitalocean.Base.{
  ℕ, ◌≡◌, refl, pos, false, none, some, [], ◌∷◌, ◌==◌, arith, if◌then◌else◌, subst, some_inj, inr,
}
use native.Mathlib.Decide.{ℕ_discrete}
use digitalocean.Models.{Job, Attempt, null, queued, running, attempt_failed}
use digitalocean.Repository.Store.{Db, get_job}
use digitalocean.Repository.Invariant.{IsValid, AgreesAt, has_attempt, has_dead_letter}
use digitalocean.System.{State, Lease}
use digitalocean.System.Safe.{IsSafe, IsNaming}
use digitalocean.System.Commit.{Fences}

abbrev pub sample_job : (id priority run_at : ℕ) → Job
sample_job id priority run_at = record {
  id = id;
  idempotency_key = none;
  request_fingerprint = none;
  schedule_id = none;
  scheduled_for = none;
  status = queued;
  payload = null;
  result = none;
  priority = pos priority;
  max_retries = 1;
  timeout_seconds = 5;
  attempt_count = 0;
  last_error = none;
  run_at = run_at;
  locked_by = none;
  locked_at = none;
  created_at = 0;
  updated_at = 0;
  finished_at = none;
}

-- Job 3 is held by worker 7 since time 10, for its second and last attempt.
abbrev pub held_job : Job
held_job = record (sample_job 3 0 0) {
  status = running;
  attempt_count = 1;
  locked_by = some 7;
  locked_at = some 10;
}

abbrev pub first_failure : Attempt
first_failure = record {
  job_id = 3;
  attempt_no = 1;
  worker_id = 6;
  status = attempt_failed;
  started_at = 1;
  finished_at = 2;
  error = some "boom";
}

abbrev pub sample_db : Db
sample_db = record {
  jobs = sample_job 1 0 5 ∷ sample_job 2 4 20 ∷ held_job ∷ [];
  job_attempts = first_failure ∷ [];
  dead_letters = [];
  recurring_schedules = [];
  runtime_config = none;
  worker_instances = [];
}

abbrev pub empty_db : Db
empty_db = record {
  jobs = [];
  job_attempts = [];
  dead_letters = [];
  recurring_schedules = [];
  runtime_config = none;
  worker_instances = [];
}

row_1 : AgreesAt 1 sample_db
unfolding get_job has_attempt has_dead_letter
row_1 = (refl, (refl, refl, refl, omega arith), λ n. ground arith, refl)

row_2 : AgreesAt 2 sample_db
unfolding get_job has_attempt has_dead_letter
row_2 = (refl, (refl, refl, refl, omega arith), λ n. ground arith, refl)

row_3 : AgreesAt 3 sample_db
unfolding get_job has_attempt has_dead_letter
row_3 = (refl, (refl, refl, refl, omega arith), λ n. ground arith, refl)

no_row : (k : ℕ) → (1 == k) ≡ false → (2 == k) ≡ false → (3 == k) ≡ false → AgreesAt k sample_db
unfolding get_job has_attempt has_dead_letter
no_row k a b c = rw (a, b, c) (λ n. refl, refl)

pub sample_db-IsValid : IsValid sample_db
sample_db-IsValid = record { keys = (refl, (refl, (refl, tt))); agrees = λ k. at_key k }
  where
    at_key : (k : ℕ) → AgreesAt k sample_db
    at_key k = elim (ℕ_discrete 1 k) [
      | yes e ↦ subst (λ m. AgreesAt m sample_db) e row_1
      | no ne ↦ elim (ℕ_discrete 2 k) [
        | yes e ↦ subst (λ m. AgreesAt m sample_db) e row_2
        | no ne' ↦ elim (ℕ_discrete 3 k) [
          | yes e ↦ subst (λ m. AgreesAt m sample_db) e row_3
          | no ne'' ↦ no_row k (ground arith) (ground arith) (ground arith)
        ]
      ]
    ]

pub empty_db-IsValid : IsValid empty_db
unfolding get_job has_attempt has_dead_letter
empty_db-IsValid = record { keys = tt; agrees = λ k. (λ n. refl, refl) }

-- Worker 7 is at job 3, and every other worker is idle.
abbrev pub held_lease : Lease
held_lease = record { job = held_job; attempt_no = 2; started_at = 10 }

abbrev pub sample_state : State
sample_state = record { db = sample_db; holding = λ w. if w == 7 then some held_lease else none }

-- The worker_id of a thread.
abbrev pub thread_name : ℕ → ℕ
thread_name t = t

pub thread_name-IsNaming : IsNaming thread_name
thread_name-IsNaming t u e = e

pub sample_state-IsSafe : IsSafe thread_name sample_state
unfolding get_job
sample_state-IsSafe = record {
  valid = sample_db-IsValid;
  fenced = λ w l e. elim (ℕ_discrete w 7) [
    | yes here ↦
        let same : held_lease ≡ l = some_inj (rw here at e) in
        subst (λ (x : Lease). Fences w x (get_job x.job.id sample_db)) same (inr (refl, refl))
    | no other ↦ absurd (ground arith)
  ];
}
