-- ===== src/Postgres/Claim/Agree.antt =====
-- A claim of either repository while no other transaction holds a row.
use digitalocean.Base.{
  ℕ, ◌≤◌, ◌≡◌, refl, false, Option, none, some, List, [], ◌∷◌, Option-cases, inl, inr, arith, ap,
  sym, subst, some_inj, ◌==◌, if◌then◌else◌, ◌∙◌,
}
use digitalocean.Models.{Job, queued}
use digitalocean.Sql.{select}
use digitalocean.Repository.Store.{Db, get_job}
use digitalocean.Repository.Claim as Sqlite
use digitalocean.Repository.Claim.{is_due, next_due, lock}
use digitalocean.Repository.Claim.Pick.{OutranksAny, pick-some}
use digitalocean.Repository.Claim.Rank.{Outranks}
use digitalocean.Repository.Claim.Order.{Claims, due_job, locked_row, claim_next_job_lem}
use digitalocean.Repository.Invariant.{IsValid}
use digitalocean.Postgres.Claim.{is_free, next_free, claim_row, claim_next_job}
use digitalocean.Postgres.Claim.Skips.{claim_row-locking}

select-free :
    (now : ℕ) (jobs : List Job) → select (is_free (λ k. false) now) jobs ≡ select (is_due now) jobs
select-free now [] = refl
select-free now (j ∷ jobs) = ground (arith, select-free now jobs)

next_free-next_due :
    (now : ℕ) (jobs : List Job) → next_free (λ k. false) now jobs ≡ next_due now jobs
unfolding next_free next_due
next_free-next_due now jobs = rw (select-free now jobs) refl

pub claim_next_job-agrees :
    (now w : ℕ) (db : Db)
    → IsValid db
    → claim_next_job (λ k. false) now w db ≡ Sqlite.claim_next_job now w db
unfolding claim_next_job claim_row Sqlite.claim_next_job Sqlite.claim_row next_due
claim_next_job-agrees now w db v = elim (Option-cases (next_due now db.jobs)) [
  | inl idle ↦ rw (next_free-next_due now db.jobs) (rw idle refl)
  | inr (row, e) ↦
      let (stands, outranks) = pick-some (is_due now) db row v.keys e in
      rw (next_free-next_due now db.jobs)
        (rw (e, locked_row now w db row stands) (claim_row-locking now w db row v stands))
]

-- The same jobs, in whatever order the tables have them.
abbrev pub SameJobs : Db → Db → Type 0
SameJobs db db' = (k : ℕ) → get_job k db' ≡ get_job k db

-- No two due jobs are equal in priority, run_at and created_at.
abbrev pub Untied : (now : ℕ) → Db → Type 0
Untied now db =
    (i k : ℕ) (a b : Job)
    → due_job now (get_job i db) ≡ some a
    → due_job now (get_job k db) ≡ some b
    → Outranks a b
    → Outranks b a
    → a ≡ b

-- A row that stands in the tables and is due.
due_there :
    (now : ℕ) (db : Db) (row : Job)
    → get_job row.id db ≡ some row
    → row.status ≡ queued
    → row.run_at ≤ now
    → due_job now (get_job row.id db) ≡ some row
due_there now db row found waits due = rw found (ground arith)

OutranksAny-Outranks : (a b : Job) (o : Option Job) → o ≡ some b → OutranksAny a o → Outranks a b
OutranksAny-Outranks a b none e h = absurd cc
OutranksAny-Outranks a b (some j) e h = subst (Outranks a) (some_inj e) h

-- Two claims that do what they promise, on the same jobs without a tie.
Claims-same :
    (now w : ℕ) (db db' : Db) (r r' : Db × Option Job)
    → SameJobs db db'
    → Untied now db
    → Claims now w db r
    → Claims now w db' r'
    → (r'.1 ≡ r.1) × SameJobs r.0 r'.0
Claims-same now w db db' (d, none) (d', none) same apart (e, idle) (e', idle') =
    (refl, λ k. rw (e, e') (same k))
Claims-same now w db db' (d, none) (d', some c') same apart (e, idle)
      (row, found, waits, due, locked, outranks, after) =
    let there = due_there now db' row found waits due in
    let gone = idle row.id in absurd (let none_due = ap (due_job now) (same row.id) in cc)
Claims-same now w db db' (d, some c) (d', none) same apart
      (row, found, waits, due, locked, outranks, after) (e, idle) =
    let there = due_there now db row found waits due in
    let gone = idle row.id in absurd (let none_due = ap (due_job now) (same row.id) in cc)
Claims-same now w db db' (d, some c) (d', some c') same apart
      (row, found, waits, due, locked, outranks, after)
      (row', found', waits', due', locked', outranks', after') =
    let there = due_there now db row found waits due in
    let there' = due_there now db' row' found' waits' due' in
    let moved : due_job now (get_job row'.id db) ≡ some row' =
      sym (ap (due_job now) (same row'.id)) ∙ there' in
    let moved' : due_job now (get_job row.id db') ≡ some row =
      ap (due_job now) (same row.id) ∙ there in
    let one : row ≡ row' =
      apart row.id row'.id row row' there moved
        (OutranksAny-Outranks row row' _ moved (outranks row'.id))
        (OutranksAny-Outranks row' row _ moved' (outranks' row.id)) in
    let answer : c' ≡ c = locked' ∙ ap (lock now w) (sym one) ∙ sym locked in
    (
      ap some answer,
      λ k.
          after' k
          ∙ rw (answer, same k)
              (subst
                (λ (x : Job).
                  (if x.id == k then some c else get_job k db)
                  ≡ (if row.id == k then some c else get_job k db))
                one refl)
          ∙ sym (after k),
    )

-- A claim on PostgreSQL and one on SQLite that have the same jobs, in any order.
pub claim_next_job-same :
    (now w : ℕ) (db db' : Db)
    → IsValid db
    → IsValid db'
    → SameJobs db db'
    → Untied now db
    → ((claim_next_job (λ k. false) now w db').1 ≡ (Sqlite.claim_next_job now w db).1)
      × SameJobs (Sqlite.claim_next_job now w db).0 (claim_next_job (λ k. false) now w db').0
claim_next_job-same now w db db' v v' same apart =
    Claims-same now w db db' (Sqlite.claim_next_job now w db)
      (claim_next_job (λ k. false) now w db') same apart (claim_next_job_lem now w db v)
      (subst (Claims now w db') (sym (claim_next_job-agrees now w db' v'))
        (claim_next_job_lem now w db' v'))
