-- ===== src/Repository/Invariant/Reap.antt =====
-- The loop of `recover_stale_jobs`, and the whole of it.
use mathlib.Core.Option
use digitalocean.Base.{
  ℕ, ◌+◌, ◌≡◌, refl, true, false, ◌&&◌, Option, none, some, List, [], ◌∷◌, ◌==◌, is_some,
  if◌then◌else◌, arith, Bool-cases, inl, inr, subst, ◌∙◌,
}
use native.Mathlib.Decide.{ℕ_discrete}
use digitalocean.Models.{Job}
use digitalocean.Sql.{find, select, count}
use digitalocean.Sql.Update.{Unique}
use digitalocean.Sql.Select.{Current, Current-weaken, Current-select, Unique-select, find-select}
use digitalocean.Repository.Store.{Db, Result, ok, get_job}
use digitalocean.Repository.Recover.{
  is_leased, is_expired, visit_row, recover_rows, recover_stale_jobs,
}
use digitalocean.Repository.Invariant.{IsValid}
use digitalocean.Repository.Invariant.Recover.{abandon, recover_row_lem}

-- What the loop makes of the row of a job, of the rows that it goes through.
abbrev pub visited : (now grace : ℕ) → List Job → ℕ → Job → Job
visited now grace rows k j =
    if is_some (find (λ r. r.id == k) rows) && is_expired now grace j then abandon now j else j

-- The expired rows of a list.
abbrev pub expired : (now grace : ℕ) → List Job → ℕ
expired now grace rows = count (is_expired now grace) rows

-- A key of the later rows is not the first row's.
pub fresh_ne :
    (k m : ℕ) (rows : List Job)
    → is_some (find (λ r. r.id == m) rows) ≡ false
    → is_some (find (λ r. r.id == k) rows) ≡ true
    → (m == k) ≡ false
fresh_ne k m rows fresh found = elim (ℕ_discrete m k) [
  | yes e ↦
      absurd (let gone = subst (λ x. is_some (find (λ r. r.id == x) rows) ≡ false) e fresh in cc)
  | no other ↦ ground arith
]

module _ (now grace : ℕ) where
  visited-nil : (k : ℕ) (o : Option Job) → o ≡ Option.map (visited now grace [] k) o
  visited-nil k none = refl
  visited-nil k (some j) = refl

  visited-other :
      (row : Job) (rows : List Job) (k : ℕ) (o : Option Job)
      → (row.id == k) ≡ false
      → Option.map (visited now grace rows k) o ≡ Option.map (visited now grace (row ∷ rows) k) o
  visited-other row rows k none ne = refl
  visited-other row rows k (some j) ne = rw ne

  -- The first row of the loop, at its own job and at any other.
  visited-cons :
      (row : Job) (rows : List Job) (k : ℕ) (o o' : Option Job)
      → is_some (find (λ r. r.id == row.id) rows) ≡ false
      → (row.id ≡ k
          → (o ≡ some row)
            × (o' ≡ some (if is_expired now grace row then abandon now row else row)))
      → ((row.id == k) ≡ false → o' ≡ o)
      → Option.map (visited now grace rows k) o' ≡ Option.map (visited now grace (row ∷ rows) k) o
  visited-cons row rows k o o' fresh here there = elim (ℕ_discrete row.id k) [
    | yes e ↦
        let gone = subst (λ x. is_some (find (λ r. r.id == x) rows) ≡ false) e fresh in
        rw ((here e).0, (here e).1, gone) (ground arith)
    | no other ↦
        let ne : (row.id == k) ≡ false = ground arith in
        rw (there ne) (visited-other row rows k o ne)
  ]

  -- One round of the loop.
  round :
      (row : Job) (rows : List Job) (db db1 : Db) (n one : ℕ) (r : Option (Db × ℕ))
      → visit_row now grace row db ≡ some (db1, one)
      → recover_rows now grace rows db1 (n + one) ≡ r
      → recover_rows now grace (row ∷ rows) db n ≡ r
  unfolding recover_rows
  round row rows db db1 n one r e h = rw (e, recover_rows) h

  abbrev pub Loops : List Job → Db → ℕ → Type 0
  Loops rows db n =
      (db' : Db) × (recover_rows now grace rows db n ≡ some (db', n + expired now grace rows))
      × IsValid db'
      × ((k : ℕ) → get_job k db' ≡ Option.map (visited now grace rows k) (get_job k db))

  pub recover_rows_lem :
      (rows : List Job) (db : Db) (n : ℕ)
      → IsValid db
      → Unique (λ j. j.id) rows
      → Current (λ j. j.id) is_leased (λ k. get_job k db) rows
      → Loops rows db n
  unfolding recover_rows
  recover_rows_lem [] db n v u c = (db, ground arith, v, λ k. visited-nil k (get_job k db))
  recover_rows_lem (row ∷ rows) db n v u (e, leased, c) =
      elim (Bool-cases (is_expired now grace row)) [
        | inl expires ↦
            let (db1, step, v1, mine, others) = recover_row_lem now row db v e leased in
            let c1 =
              Current-weaken (λ j. j.id) is_leased (λ k. get_job k db) (λ k. get_job k db1) rows
                (λ k h. others k (fresh_ne k row.id rows u.0 h)) c in
            let (db', ran, v', all) = recover_rows_lem rows db1 (n + 1) v1 u.1 c1 in
            (
              db',
              round row rows db db1 n 1 _ (rw expires step) (ran ∙ ground arith),
              v',
              λ k.
                  all k
                  ∙ visited-cons row rows k (get_job k db) (get_job k db1) u.0
                      (λ h. rw (← h, expires) (e, mine)) (others k),
            )
        | inr fresh ↦
            let (db', ran, v', all) = recover_rows_lem rows db (n + 0) v u.1 c in
            (
              db',
              round row rows db db n 0 _ (rw fresh) (ran ∙ ground arith),
              v',
              λ k.
                  all k
                  ∙ visited-cons row rows k (get_job k db) (get_job k db) u.0
                      (λ h. rw (← h, fresh) (e, e)) (λ h. refl),
            )
      ]

-- What recovery makes of a row: an expired lease is abandoned.
abbrev pub recovered_row : (now lease_grace : ℕ) → Job → Job
recovered_row now grace j = if is_leased j && is_expired now grace j then abandon now j else j

recovered-visited :
    (now grace k : ℕ) (db : Db)
    → Unique (λ j. j.id) db.jobs
    → (o : Option Job) → get_job k db ≡ o
    → Option.map (visited now grace (select is_leased db.jobs) k) o
      ≡ Option.map (recovered_row now grace) o
unfolding get_job
recovered-visited now grace k db u none e = refl
recovered-visited now grace k db u (some j) e = rw (find-select (λ x. x.id) is_leased k db.jobs u e)

-- What `recover_stale_jobs` answers: it raises nothing and counts the expired leases, the tables
-- are consistent, and exactly the jobs with an expired lease are abandoned.
abbrev pub Recovers : (now lease_grace : ℕ) → Db → Db × Result ℕ → Type 0
Recovers now grace db (db', r) =
    (r ≡ ok (expired now grace (select is_leased db.jobs)))
    × IsValid db'
    × ((k : ℕ) → get_job k db' ≡ Option.map (recovered_row now grace) (get_job k db))

-- On consistent tables the reaper raises nothing, answers the number of running jobs whose lease
-- has expired, leaves the tables consistent, and sends exactly those jobs back to the queue or to
-- the dead letters, with one more attempt; every other job keeps its row.
pub recover_stale_jobs_lem :
    (now grace : ℕ) (db : Db) → IsValid db → Recovers now grace db (recover_stale_jobs now grace db)
unfolding recover_stale_jobs get_job
recover_stale_jobs_lem now grace db v =
    let (db', ran, v', all) =
      recover_rows_lem now grace (select is_leased db.jobs) db 0 v
        (Unique-select (λ j. j.id) is_leased db.jobs v.keys)
        (Current-select (λ j. j.id) is_leased db.jobs v.keys) in
    rw (ran, recover_stale_jobs)
      (ground arith, v', λ k. all k ∙ recovered-visited now grace k db v.keys (get_job k db) refl)
