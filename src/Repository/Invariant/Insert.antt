-- ===== src/Repository/Invariant/Insert.antt =====
-- New jobs: `create_job`, `create_jobs_batch` and the jobs of the schedules.
use digitalocean.Base.{
  ℕ, ◌≡◌, Bool, false, Option, none, some, [], ◌∷◌, ◌++◌, ◌==◌, is_some, if◌then◌else◌, arith,
  Bool-cases, inl, inr,
}
use digitalocean.Models.{Job, queued}
use digitalocean.Sql.{find}
use digitalocean.Sql.Update.{find-append, find-stronger, Unique-append}
use digitalocean.Repository.Store.{Db, get_job, insert_job, clashes}
use digitalocean.Repository.Invariant.{IsRow, Agrees, IsValid, has_attempt, has_dead_letter}

-- The row of a job that has not run.
abbrev pub IsNew : Job → Type 0
IsNew j = IsRow j × (j.status ≡ queued) × (j.attempt_count ≡ 0)

-- An insert that succeeds found no row of the same identifier, and appends the row.
pub insert_job-some :
    (row : Job) (db : Db) {db' : Db}
    → insert_job row db ≡ some db'
    → (is_some (find (λ j. j.id == row.id) db.jobs) ≡ false)
      × (db' ≡ record db { jobs = db.jobs ++ row ∷ [] })
unfolding insert_job
insert_job-some row db {db'} e = elim (Bool-cases (is_some (find (clashes row) db.jobs))) [
  | inl clash ↦ absurd (ground arith)
  | inr free ↦ (
    find-stronger (clashes row) (λ j. j.id == row.id) db.jobs (λ j h. ground arith) free,
    ground arith,
  )
]

Agrees-append :
    (k : ℕ) (row : Job) (o : Option Job) (log : ℕ → Bool) (dead : Bool)
    → IsNew row
    → (k ≡ row.id → is_some o ≡ false)
    → Agrees k o log dead
    → Agrees k (if is_some o then o else (if row.id == k then some row else none)) log dead
Agrees-append k row (some j) log dead new absent a = a
Agrees-append k row none log dead (valid, waits, untried) absent (logged, d) =
    elim (Bool-cases (row.id == k)) [
      | inl e ↦ rw e (ground arith, valid, λ n. ground (arith, logged n), ground arith)
      | inr e ↦ rw e (logged, d)
    ]

append-IsValid :
    (row : Job) (db : Db)
    → IsNew row
    → is_some (find (λ j. j.id == row.id) db.jobs) ≡ false
    → IsValid db
    → IsValid (record db { jobs = db.jobs ++ row ∷ [] })
unfolding get_job has_attempt has_dead_letter
append-IsValid row db new absent v = record {
  keys = Unique-append (λ j. j.id) db.jobs row absent v.keys;
  agrees = λ k.
      rw (find-append (λ j. j.id == k) db.jobs row)
        (Agrees-append k row (get_job k db) _ _ new (λ e. rw e absent) (v.agrees k));
}

-- An insert of a new job keeps the tables consistent.
pub insert_job-IsValid :
    (row : Job) (db : Db) {db' : Db}
    → IsNew row
    → IsValid db
    → insert_job row db ≡ some db'
    → IsValid db'
insert_job-IsValid row db new v e =
    let (absent, appended) = insert_job-some row db e in
    rw appended (append-IsValid row db new absent v)
