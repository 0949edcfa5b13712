-- ===== src/Worker/Busy.antt =====
-- `_busy_workers` of app/worker.py, which the heartbeat and the metrics read: `process_one` adds one
-- under the lock before its `try`, and its `finally` takes one away, however the attempt ends.
use digitalocean.Base.{ℕ, ◌+◌, ◌-◌, ◌≤◌, ◌≡◌, Bool, true, false, List, [], ◌∷◌, ◌++◌, length, arith}
use digitalocean.Sql.{count}

-- The threads of a pool: whether each of them is between the addition and the subtraction.
pub record State : Type 0 where
  pub busy_workers : ℕ
  pub threads : List Bool

abbrev entered : ℕ → ℕ
entered busy_workers = busy_workers + 1

abbrev left : ℕ → ℕ
left busy_workers = busy_workers - 1

pub data Step : State → State → Type 0 where
  enter :
      (n : ℕ) (before after : List Bool)
      → Step
          (record { busy_workers = n; threads = before ++ false ∷ after })
          (record { busy_workers = entered n; threads = before ++ true ∷ after })
  leave :
      (n : ℕ) (before after : List Bool)
      → Step
          (record { busy_workers = n; threads = before ++ true ∷ after })
          (record { busy_workers = left n; threads = before ++ false ∷ after })
  spawn :
      (n : ℕ) (threads : List Bool)
      → Step
          (record { busy_workers = n; threads = threads })
          (record { busy_workers = n; threads = threads ++ false ∷ [] })
  exit :
      (n : ℕ) (before after : List Bool)
      → Step
          (record { busy_workers = n; threads = before ++ false ∷ after })
          (record { busy_workers = n; threads = before ++ after })

pub data Reach (s : State) : State → Type 0 where
  here : Reach s s
  next : {t u : State} → Reach s t → Step t u → Reach s u

abbrev busy_among : List Bool → ℕ
busy_among threads = count (λ b. b) threads

count-append :
    (before after : List Bool) → busy_among (before ++ after) ≡ busy_among before + busy_among after
count-append [] after = omega arith
count-append (true ∷ before) after = let rest = count-append before after in omega arith
count-append (false ∷ before) after = let rest = count-append before after in omega arith

busy_among-length : (threads : List Bool) → busy_among threads ≤ length threads
busy_among-length [] = omega arith
busy_among-length (true ∷ threads) = let rest = busy_among-length threads in omega arith
busy_among-length (false ∷ threads) = let rest = busy_among-length threads in omega arith

-- The number is that of the busy threads.
abbrev pub IsCounted : State → Type 0
IsCounted s = s.busy_workers ≡ busy_among s.threads

Step-IsCounted : {s t : State} → Step s t → IsCounted s → IsCounted t
Step-IsCounted (enter n before after) counted =
    let now = count-append before (false ∷ after) in
    let later = count-append before (true ∷ after) in omega arith
Step-IsCounted (leave n before after) counted =
    let now = count-append before (true ∷ after) in
    let later = count-append before (false ∷ after) in omega arith
Step-IsCounted (spawn n threads) counted =
    let later = count-append threads (false ∷ []) in omega arith
Step-IsCounted (exit n before after) counted =
    let now = count-append before (false ∷ after) in
    let later = count-append before after in omega arith

-- In every interleaving of the threads the number is that of the threads that run a job, and at
-- most that of the threads.
pub Reach-IsCounted :
    {s t : State} → IsCounted s → Reach s t → IsCounted t × (t.busy_workers ≤ length t.threads)
Reach-IsCounted {t} counted here = let most = busy_among-length t.threads in (counted, omega arith)
Reach-IsCounted {t} counted (next r step) =
    let last = Step-IsCounted step (Reach-IsCounted counted r).0 in
    let most = busy_among-length t.threads in (last, omega arith)
