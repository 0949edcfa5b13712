-- ===== src/Repository/Depth/Age.antt =====
-- The age of the oldest job that is due.
use digitalocean.Base.{
  ℕ, ◌-◌, ◌≤◌, ◌≡◌, refl, Bool, true, false, Option, none, some, [], ◌==◌, ltb, arith, Option-cases,
  Bool-cases, inl, inr,
}
use digitalocean.Models.{Job}
use digitalocean.Sql.{select, order_by}
use digitalocean.Sql.Select.{Current-select}
use digitalocean.Sql.Sort.{All-order_by, All-first, first-order_by, order_by-nil, find-All}
use digitalocean.Repository.Store.{Db, get_job}
use digitalocean.Repository.Claim.{is_due}
use digitalocean.Repository.Claim.Pick.{Stands, Current-Stands, first-none, passing-none}
use digitalocean.Repository.Claim.Order.{due_job}
use digitalocean.Repository.Invariant.{IsValid}
use digitalocean.Repository.Depth.{oldest, oldest_queued_age_seconds}

abbrev older : Job → Job → Bool
older a b = ltb a.created_at b.created_at

older_asym : (a b : Job) → older a b ≡ true → older b a ≡ false
older_asym a b e = ground arith

older_trans : (a b c : Job) → older b a ≡ false → older c b ≡ false → older c a ≡ false
older_trans a b c e f = ground arith

-- A job, if there is one, is at most this old.
abbrev pub IsNoOlder : (asked age : ℕ) → Option Job → Type 0
IsNoOlder asked age none = Unit
IsNoOlder asked age (some j) = asked - j.created_at ≤ age

no_older :
    (now asked : ℕ) (row : Job) (o : Option Job)
    → ((j : Job) → o ≡ some j → is_due now j ≡ true → older j row ≡ false)
    → IsNoOlder asked (asked - row.created_at) (due_job now o)
no_older now asked row none h = tt
no_older now asked row (some j) h = elim (Bool-cases (is_due now j)) [
  | inl due ↦ rw due (let first_one = h j refl due in ground arith)
  | inr later ↦ rw later tt
]

-- The answer: no age if no job is due, otherwise the age of a due job, which no due job exceeds.
abbrev pub IsOldestAge : (now asked : ℕ) → Db → Option ℕ → Type 0
IsOldestAge now asked db none = (k : ℕ) → due_job now (get_job k db) ≡ none
IsOldestAge now asked db (some age) =
    ((row : Job) × (get_job row.id db ≡ some row)
      × (is_due now row ≡ true)
      × (age ≡ asked - row.created_at))
    × ((k : ℕ) → IsNoOlder asked age (due_job now (get_job k db)))

module _ (now asked : ℕ) (db : Db) (v : IsValid db) where
  oldest-none : oldest now db.jobs ≡ none → IsOldestAge now asked db none
  unfolding get_job
  oldest-none e k = passing-none (is_due now) (get_job k db) (λ j found.
      elim (Bool-cases (is_due now j)) [
        | inl waits ↦
            let due = select (is_due now) db.jobs in
            let empty : due ≡ [] =
              order_by-nil older older_asym older_trans due (first-none (order_by older due) e) in
            absurd
              (find-All (λ z. ⊥) (is_due now) (λ x. x.id == k) db.jobs j (rw empty tt) found waits)
        | inr later ↦ later
      ])

  oldest-some :
      (row : Job)
      → oldest now db.jobs ≡ some row
      → IsOldestAge now asked db (some (asked - row.created_at))
  unfolding get_job
  oldest-some row e =
      let due = select (is_due now) db.jobs in
      let stands =
        Current-Stands (is_due now) db due
          (Current-select (λ j. j.id) (is_due now) db.jobs v.keys) in
      let least = first-order_by older older_asym older_trans due row e in
      let (found, waits) =
        All-first (Stands (is_due now) db) (order_by older due) row
          (All-order_by older (Stands (is_due now) db) due stands) e in
      (
        (row, found, waits, refl),
        λ k. no_older now asked row (get_job k db) (λ j h d.
            find-All (λ z. older z row ≡ false) (is_due now) (λ x. x.id == k) db.jobs j least h d),
      )

  -- On consistent tables the age of the oldest queued job is missing only when no job is due;
  -- otherwise it is the age of a due job at the time asked, and no due job is older.
  pub oldest_queued_age_seconds_lem :
      IsOldestAge now asked db (oldest_queued_age_seconds now asked db)
  unfolding oldest_queued_age_seconds
  oldest_queued_age_seconds_lem = elim (Option-cases (oldest now db.jobs)) [
    | inl e ↦ rw e (oldest-none e)
    | inr (row, e) ↦ rw e (oldest-some row e)
  ]
