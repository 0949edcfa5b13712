-- ===== src/Postgres/Locks.antt =====
-- The claims of several workers at once on PostgreSQL. `claim_next_job` of
-- app/postgres_repository.py is one transaction of two statements: the `SELECT ... FOR UPDATE SKIP
-- LOCKED`, whose row stays locked, and the `UPDATE ... RETURNING`. Other transactions commit in
-- between; PostgreSQL lets none of them write a row that is locked.
pub mod Refines
pub mod Others
use digitalocean.Base.{
  ℕ, ◌≡◌, Bool, true, Option, none, some, List, [], ◌∷◌, ◌++◌, ◌||◌, ◌==◌, is_some,
}
use digitalocean.Models.{Job}
use digitalocean.Sql.{find, delete}
use digitalocean.Repository.Store.{Db, get_job}
use digitalocean.Repository.Claim.{is_due, lock}
use digitalocean.Repository.Claim.Pick.{Stands}
use digitalocean.Repository.Claim.Order.{locking}
use digitalocean.System.Steps.{IsGood}
use digitalocean.Postgres.Claim.{next_free, claim_row}

-- A claim between its two statements.
pub record Claim : Type 0 where
  pub worker : ℕ
  pub started : ℕ
  pub row : Job

pub record State : Type 0 where
  pub db : Db
  pub claims : List Claim

abbrev pub of_row : ℕ → Claim → Bool
of_row k c = c.row.id == k

-- The rows that the transactions of the claims have locked.
abbrev pub is_locked : List Claim → ℕ → Bool
is_locked claims k = is_some (find (of_row k) claims)

-- What a client sees: a job was handed to a worker, or another transaction committed.
pub data Event : Type 0 where
  handed : (worker : ℕ) → Option Job → Event
  changed : Event

-- The second statement, and the end of the transaction.
abbrev pub written : State → Claim → State
written s c = record {
  db = (claim_row c.started c.worker s.db (some c.row)).0;
  claims = delete (of_row c.row.id) s.claims;
}

-- `held` are the rows that transactions other than the claims hold at that moment.
pub data Step : State → Option Event → State → Type 0 where
  choose :
      (s : State) (held : ℕ → Bool) (now worker : ℕ) (row : Job)
      → next_free (λ k. is_locked s.claims k || held k) now s.db.jobs ≡ some row
      → Step s none (record s {
        claims = s.claims ++ record { worker = worker; started = now; row = row } ∷ [];
      })
  write :
      (s : State) (c : Claim)
      → find (of_row c.row.id) s.claims ≡ some c
      → Step s
          (some (handed c.worker (claim_row c.started c.worker s.db (some c.row)).1))
          (written s c)
  abort : (s : State) (k : ℕ) → Step s none (record s { claims = delete (of_row k) s.claims })
  other :
      (s : State) (db' : Db)
      → IsGood s.db db'
      → ((k : ℕ) → is_locked s.claims k ≡ true → get_job k db' ≡ get_job k s.db)
      → Step s (some changed) (record s { db = db' })

pub data Runs : State → List Event → State → Type 0 where
  stop : (s : State) → Runs s [] s
  quiet : {s t u : State} {es : List Event} → Step s none t → Runs t es u → Runs s es u
  seen :
      {s t u : State} {e : Event} {es : List Event}
      → Step s (some e) t
      → Runs t es u
      → Runs s (e ∷ es) u

-- The specification: there are no locks, and a claim is one step that hands out a row of a due job
-- as it stands in the tables.
pub data Spec : Db → List Event → Db → Type 0 where
  done : (db : Db) → Spec db [] db
  hand :
      (db : Db) (now worker : ℕ) (row : Job) {es : List Event} {last : Db}
      → Stands (is_due now) db row
      → Spec (locking now worker db row) es last
      → Spec db (handed worker (some (lock now worker row)) ∷ es) last
  change :
      (db db' : Db) {es : List Event} {last : Db}
      → IsGood db db'
      → Spec db' es last
      → Spec db (changed ∷ es) last
