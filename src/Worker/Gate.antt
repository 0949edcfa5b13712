-- ===== src/Worker/Gate.antt =====
-- The gates of `_maybe_sync_runtime_config`, `_maybe_recover_stale_jobs` and
-- `_maybe_materialize_schedules` of app/worker.py: a test of the time since the last run, a lock
-- that is tried without waiting, and the same test again under the lock. The threads of a pool
-- share the time and the lock of a gate.
pub mod Spaced
use digitalocean.Base.{
  ℕ, ◌+◌, ◌≤◌, ◌≡◌, Bool, true, false, Option, none, some, List, [], ◌∷◌, ◌==◌, ltb, if◌then◌else◌,
}

-- `now - last < interval`
abbrev pub is_closed : (interval last now : ℕ) → Bool
is_closed interval last now = ltb now (last + interval)

-- Where a thread is in the method: before it, behind the first test, in the lock, and in the call
-- of the repository with the time of the second test.
pub data Phase : Type 0 where
  away tested locked : Phase
  running : ℕ → Phase

-- `runs` are the times of the runs that raised nothing, the latest first.
pub record Gate : Type 0 where
  pub clock : ℕ
  pub last : ℕ
  pub owner : Option ℕ
  pub phase : ℕ → Phase
  pub runs : List ℕ

abbrev pub set_phase : ℕ → Phase → (ℕ → Phase) → ℕ → Phase
set_phase t p phase u = if t == u then p else phase u

abbrev pub at_phase : ℕ → Phase → Gate → Gate
at_phase t p g = record g { phase = set_phase t p g.phase }

-- The `finally` clause.
abbrev pub released : ℕ → Gate → Gate
released t g = record g { owner = none; phase = set_phase t away g.phase }

-- The run returned.
abbrev pub ran : ℕ → ℕ → Gate → Gate
ran t now g = record (released t g) { last = now; runs = now ∷ g.runs }

pub data Step (interval : ℕ) : Gate → Gate → Type 0 where
  tick : (g : Gate) (now : ℕ) → g.clock ≤ now → Step interval g (record g { clock = now })
  enter :
      (g : Gate) (t : ℕ)
      → g.phase t ≡ away
      → is_closed interval g.last g.clock ≡ false
      → Step interval g (at_phase t tested g)
  refuse :
      (g : Gate) (t other : ℕ)
      → g.phase t ≡ tested
      → g.owner ≡ some other
      → Step interval g (at_phase t away g)
  acquire :
      (g : Gate) (t : ℕ)
      → g.phase t ≡ tested
      → g.owner ≡ none
      → Step interval g (at_phase t locked (record g { owner = some t }))
  leave :
      (g : Gate) (t : ℕ)
      → g.phase t ≡ locked
      → is_closed interval g.last g.clock ≡ true
      → Step interval g (released t g)
  run :
      (g : Gate) (t : ℕ)
      → g.phase t ≡ locked
      → is_closed interval g.last g.clock ≡ false
      → Step interval g (at_phase t (running g.clock) g)
  finish : (g : Gate) (t now : ℕ) → g.phase t ≡ running now → Step interval g (ran t now g)
  fail : (g : Gate) (t now : ℕ) → g.phase t ≡ running now → Step interval g (released t g)

pub data Reach (interval : ℕ) (g : Gate) : Gate → Type 0 where
  here : Reach interval g g
  next : {h k : Gate} → Reach interval g h → Step interval h k → Reach interval g k

-- The gate of a new pool.
abbrev pub new_gate : (clock : ℕ) → Gate
new_gate clock = record { clock = clock; last = 0; owner = none; phase = λ t. away; runs = [] }
