-- ===== src/Repository/Claim/Pick.antt =====
-- Which row `ORDER BY priority DESC, run_at ASC, created_at ASC LIMIT 1` picks of those that pass a
-- test.
use digitalocean.Base.{
  ℕ, ◌≡◌, refl, Bool, true, false, Option, none, some, List, [], ◌∷◌, ◌==◌, if◌then◌else◌,
  Bool-cases, inl, inr,
}
use digitalocean.Models.{Job}
use digitalocean.Sql.{select, order_by, first}
use digitalocean.Sql.Update.{Unique}
use digitalocean.Sql.Select.{Current, Current-select}
use digitalocean.Sql.Sort.{All, All-order_by, All-first, first-order_by, order_by-nil, find-All}
use digitalocean.Repository.Store.{Db, get_job}
use digitalocean.Repository.Claim.{claims_before}
use digitalocean.Repository.Claim.Rank.{
  Outranks, claims_before_asym, claims_before_trans, claims_before-Outranks,
}

pub first-none : (rows : List Job) → first rows ≡ none → rows ≡ []
first-none [] e = refl
first-none (r ∷ rows) e = cc

-- A job, if it passes a test.
abbrev pub passing : (Job → Bool) → Option Job → Option Job
passing p none = none
passing p (some j) = if p j then some j else none

abbrev pub OutranksAny : Job → Option Job → Type 0
OutranksAny row none = Unit
OutranksAny row (some j) = Outranks row j

module _ (p : Job → Bool) where
  -- What holds of the rows of a selection that stand in the table.
  abbrev pub Stands : Db → Job → Type 0
  Stands db r = (get_job r.id db ≡ some r) × (p r ≡ true)

  pub Current-Stands :
      (db : Db) (rows : List Job)
      → Current (λ j. j.id) p (λ k. get_job k db) rows
      → All (Stands db) rows
  Current-Stands db [] c = tt
  Current-Stands db (r ∷ rows) (e, passes, c) = ((e, passes), Current-Stands db rows c)

  abbrev pub pick : List Job → Option Job
  pick jobs = first (order_by claims_before (select p jobs))

  pub passing-none : (o : Option Job) → ((j : Job) → o ≡ some j → p j ≡ false) → passing p o ≡ none
  passing-none none h = refl
  passing-none (some j) h = rw (h j refl)

  outranks_any :
      (row : Job) (o : Option Job)
      → ((j : Job) → o ≡ some j → p j ≡ true → Outranks row j)
      → OutranksAny row (passing p o)
  outranks_any row none h = tt
  outranks_any row (some j) h = elim (Bool-cases (p j)) [
    | inl passes ↦ rw passes (h j refl passes)
    | inr fails ↦ rw fails tt
  ]

  -- The row that is picked.
  pub pick-some :
      (db : Db) (row : Job)
      → Unique (λ j. j.id) db.jobs
      → pick db.jobs ≡ some row
      → Stands db row × ((k : ℕ) → OutranksAny row (passing p (get_job k db)))
  unfolding get_job
  pick-some db row u e =
      let rows = select p db.jobs in
      let stands = Current-Stands db rows (Current-select (λ j. j.id) p db.jobs u) in
      let least = first-order_by claims_before claims_before_asym claims_before_trans rows row e in
      (
        All-first (Stands db) (order_by claims_before rows) row
            (All-order_by claims_before (Stands db) rows stands) e,
        λ k. outranks_any row (get_job k db) (λ j found passes. claims_before-Outranks row j (
            find-All (λ z. claims_before z row ≡ false) p (λ x. x.id == k) db.jobs j least found
              passes)),
      )

  -- No row is picked only when none passes.
  pub pick-none : (db : Db) → pick db.jobs ≡ none → (k : ℕ) → passing p (get_job k db) ≡ none
  unfolding get_job
  pick-none db e k = passing-none (get_job k db) (λ j found. elim (Bool-cases (p j)) [
    | inl passes ↦
        let rows = select p db.jobs in
        let empty : rows ≡ [] =
          order_by-nil claims_before claims_before_asym claims_before_trans rows
            (first-none (order_by claims_before rows) e) in
        absurd (find-All (λ z. ⊥) p (λ x. x.id == k) db.jobs j (rw empty tt) found passes)
    | inr fails ↦ fails
  ])
