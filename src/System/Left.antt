-- ===== src/System/Left.antt =====
-- The attempts that the jobs of the tables have left.
use digitalocean.Base.{
  ℕ, ◌+◌, ◌-◌, ◌≤◌, ◌<◌, ◌≡◌, refl, Bool, true, false, ◌||◌, Option, none, some, List, [], ◌∷◌,
  ◌==◌, map, if◌then◌else◌, arith, Bool-cases, inl, inr, sym, subst,
}
use native.Mathlib.Decide.{ℕ_discrete}
use digitalocean.Models.{Job, RuntimeConfig, queued, running, is_status}
use digitalocean.Sql.{find}
use digitalocean.Repository.Store.{Db, get_job}
use digitalocean.Repository.Claim.{lock}
use digitalocean.Worker.{Outcome, returned, raised, expired}
use digitalocean.System.Round.{ended_job}

-- The attempts that a job can still make.
abbrev pub attempts_left : Option Job → ℕ
attempts_left none = 0
attempts_left (some j) =
    if is_status j.status queued || is_status j.status running
    then j.max_retries + 1 - j.attempt_count
    else 0

abbrev pub sum_over : (ℕ → ℕ) → List ℕ → ℕ
sum_over f [] = 0
sum_over f (k ∷ ks) = f k + sum_over f ks

abbrev pub is_in : ℕ → List ℕ → Bool
is_in k [] = false
is_in k (m ∷ ks) = m == k || is_in k ks

abbrev pub ids : Db → List ℕ
ids db = map (λ (j : Job). j.id) db.jobs

-- All attempts that are left in the tables.
abbrev pub total_left : Db → ℕ
total_left db = sum_over (λ k. attempts_left (get_job k db)) (ids db)

pub sum_over_mono :
    (f g : ℕ → ℕ) (ks : List ℕ) → ((k : ℕ) → g k ≤ f k) → sum_over g ks ≤ sum_over f ks
sum_over_mono f g [] le = omega arith
sum_over_mono f g (k ∷ ks) le =
    let first = le k in let rest = sum_over_mono f g ks le in omega arith

pub sum_over_drop :
    (f g : ℕ → ℕ) (k : ℕ) (ks : List ℕ)
    → ((m : ℕ) → g m ≤ f m)
    → g k < f k
    → is_in k ks ≡ true
    → sum_over g ks < sum_over f ks
sum_over_drop f g k [] le drop there = cc
sum_over_drop f g k (m ∷ ks) le drop there = elim (ℕ_discrete m k) [
  | yes e ↦
      let rest = sum_over_mono f g ks le in
      let here = subst (λ x. g x < f x) (sym e) drop in omega arith
  | no ne ↦
      let first = le m in let rest = sum_over_drop f g k ks le drop (ground arith) in omega arith
]

-- Every job of the tables is in the list.
abbrev pub Covers : List ℕ → Db → Type 0
Covers ks db = (k : ℕ) (j : Job) → get_job k db ≡ some j → is_in k ks ≡ true

pub ids-Covers : (db : Db) → Covers (ids db) db
unfolding get_job
ids-Covers db k j e = in_rows db.jobs e
  where
    in_rows :
        (rows : List Job)
        → find (λ x. x.id == k) rows ≡ some j
        → is_in k (map (λ (x : Job). x.id) rows) ≡ true
    in_rows [] h = cc
    in_rows (x ∷ rows) h = elim (Bool-cases (x.id == k)) [
      | inl mine ↦ rw mine refl
      | inr other ↦ rw other (in_rows rows (rw other at h))
    ]

-- The end of an attempt uses it up, whatever the outcome is.
pub ended_job-left :
    (config : RuntimeConfig) (claimed_at now w : ℕ) (outcome : Outcome) (row : Job)
    → row.status ≡ queued
    → row.attempt_count ≤ row.max_retries
    → attempts_left (some (ended_job config now outcome (lock claimed_at w row)))
      < attempts_left (some row)
ended_job-left config claimed_at now w (returned result) row waits fits = rw waits (ground arith)
ended_job-left config claimed_at now w (raised error) row waits fits = rw waits (ground arith)
ended_job-left config claimed_at now w expired row waits fits = rw waits (ground arith)
