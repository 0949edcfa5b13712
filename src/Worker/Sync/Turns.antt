-- ===== src/Worker/Sync/Turns.antt =====
-- A turn of a worker thread.
use digitalocean.Base.{ℕ, ◌≡◌, none}
use digitalocean.Repository.Store.{Db, get_job}
use digitalocean.Repository.Claim.Order.{due_job}
use digitalocean.Repository.Invariant.{IsValid}
use digitalocean.Worker.Pool.{Pool}
use digitalocean.Worker.Sync.{Turn, ends, waits, goes_on, fails}

-- What a turn leaves: it never ends in an exception, and it waits only when no job is due.
abbrev pub EndsWell : (claimed_at : ℕ) → (Pool × Db) × Turn → Type 0
EndsWell claimed_at ((pool, db), ends) = IsValid db
EndsWell claimed_at ((pool, db), waits) =
    IsValid db × ((k : ℕ) → due_job claimed_at (get_job k db) ≡ none)
EndsWell claimed_at ((pool, db), goes_on) = IsValid db
EndsWell claimed_at (s, fails e) = ⊥
