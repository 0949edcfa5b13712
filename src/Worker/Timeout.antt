-- ===== src/Worker/Timeout.antt =====
-- `_run_with_timeout` of app/worker.py, and the clauses of `process_one` that tell its ends apart.
use digitalocean.Base.{ℕ, ◌≤◌, ◌≡◌, refl, String, Option, none, some, leb, if◌then◌else◌, arith}
use digitalocean.Models.{Job, Json}
use digitalocean.Worker.{Outcome, returned, raised, expired}

-- How a call of the handler ends by itself: `timed_out` is a TimeoutError of its own, which
-- `except TimeoutError` catches too.
pub data End : Type 0 where
  answers : Json → End
  fails : String → End
  timed_out : End

-- A call of the handler: the time that it takes, or none if it does not end.
pub record Call : Type 0 where
  pub takes : Option ℕ
  pub end : End

abbrev ended : End → Outcome
ended (answers result) = returned result
ended (fails error) = raised error
ended timed_out = expired

-- `future.result(timeout=...)`
abbrev within : (timeout : ℕ) → Option ℕ → Outcome → Outcome
within timeout none outcome = expired
within timeout (some n) outcome = if leb n timeout then outcome else expired

-- The handler of `process_one`, with the time that its calls take.
unfoldable pub run_with_timeout : (Json → ℕ → Call) → Job → ℕ → Outcome
run_with_timeout handler job attempt_no =
    let call = handler job.payload attempt_no in
    within job.timeout_seconds call.takes (ended call.end)

-- A result is recorded only of a call that ended in time.
pub run_with_timeout-returned :
    (handler : Json → ℕ → Call) (job : Job) (attempt_no : ℕ) (result : Json)
    → run_with_timeout handler job attempt_no ≡ returned result
    → (n : ℕ) × ((handler job.payload attempt_no).takes ≡ some n)
      × (n ≤ job.timeout_seconds)
      × ((handler job.payload attempt_no).end ≡ answers result)
unfolding run_with_timeout
run_with_timeout-returned handler job attempt_no result e =
    in_time (handler job.payload attempt_no).takes (handler job.payload attempt_no).end e
  where
    in_time :
        (takes : Option ℕ) (end : End)
        → within job.timeout_seconds takes (ended end) ≡ returned result
        → (n : ℕ) × (takes ≡ some n) × (n ≤ job.timeout_seconds) × (end ≡ answers result)
    in_time none end h = cc
    in_time (some n) (answers r) h = (n, refl, ground arith, ground arith)
    in_time (some n) (fails error) h = absurd (ground arith)
    in_time (some n) timed_out h = absurd (ground arith)
