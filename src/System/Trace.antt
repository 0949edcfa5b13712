-- ===== src/System/Trace.antt =====
-- The tables that a run passes through, whatever its steps are: what the state machine alone says of
-- a job.
use digitalocean.Base.{
  ℕ, suc, ◌+◌, ◌-◌, ◌*◌, ◌≤◌, ◌<◌, ◌≡◌, refl, true, Option, none, some, arith, inl, inr, subst, ap,
}
use digitalocean.Models.{Job, JobStatus, queued, running}
use digitalocean.Repository.Store.{Db, get_job}
use digitalocean.Repository.Invariant.{
  IsValid, IsRow, Agrees, AttemptsFit, has_attempt, has_dead_letter, is_terminal,
}
use digitalocean.System.Evolve.{allows, allows_terminal, Moves, Evolves}

-- Consistent tables, one transaction after the other.
pub data Trace (first : Db) : Db → Type 0 where
  start : Trace first first
  after :
      {db db' : Db}
      → Trace first db
      → IsValid db
      → ((k : ℕ) → Evolves (get_job k db) (get_job k db'))
      → Trace first db'

terminal-Evolves :
    (o o' : Option Job) (j : Job)
    → o ≡ some j
    → is_terminal j.status ≡ true
    → Evolves o o'
    → o' ≡ some j
terminal-Evolves o none j e t moved = absurd (rw e at moved)
terminal-Evolves o (some j') j e t moved = elim (rw e at moved) [
  | inl same ↦ ap some same
  | inr (policy, allowed) ↦ absurd (
      let stuck =
        allows_terminal j.status j'.status j.attempt_count j'.attempt_count j.max_retries t in
      cc)
]

pub terminal-Trace :
    {first last : Db} (k : ℕ) (j : Job)
    → Trace first last
    → get_job k first ≡ some j
    → is_terminal j.status ≡ true
    → get_job k last ≡ some j
terminal-Trace k j start e ends = e
terminal-Trace k j (after {db} {db'} trace v evolves) e ends =
    terminal-Evolves (get_job k db) (get_job k db') j (terminal-Trace k j trace e ends) ends
      (evolves k)

-- How many transitions a job can still make.
abbrev pub transitions_left : JobStatus → (attempt_count max_retries : ℕ) → ℕ
transitions_left queued c m = 2 * (m + 1 - c) + 1
transitions_left running c m = 2 * (m + 1 - c)
transitions_left _ c m = 0

abbrev pub left : Job → ℕ
left j = transitions_left j.status j.attempt_count j.max_retries

transitions_left_most : (s : JobStatus) (c m : ℕ) → transitions_left s c m ≤ 2 * m + 3
transitions_left_most s c m = ground arith

-- The rows that a job takes on one after the other, by as many transitions.
pub data Life (j : Job) : ℕ → Job → Type 0 where
  unmoved : Life j 0 j
  moved : {n : ℕ} {j' j'' : Job} → Life j n j' → Moves j' j'' → Life j (suc n) j''

allows-left :
    (s s' : JobStatus) (c c' m : ℕ)
    → AttemptsFit s c m
    → allows s s' c c' m ≡ true
    → transitions_left s' c' m < transitions_left s c m
unfolding allows
allows-left s s' c c' m fit e = ground arith

Moves-left : (j j' : Job) → IsRow j → Moves j j' → left j' < left j
Moves-left j j' row (policy, allowed) =
    rw policy.max_retries
      (allows-left j.status j'.status j.attempt_count j'.attempt_count j.max_retries row.3 allowed)

get_job-IsRow : (k : ℕ) (j : Job) (db : Db) → IsValid db → get_job k db ≡ some j → IsRow j
get_job-IsRow k j db v e =
    (subst (λ o. Agrees k o (λ n. has_attempt k n db) (has_dead_letter k db)) e (v.agrees k)).1

-- The row of a job after a run: as many transitions as it made, it can make fewer from now on.
abbrev pub Lives : Option Job → Job → Type 0
Lives o j = (n : ℕ) × ((j' : Job) × (o ≡ some j') × Life j n j' × (n + left j' ≤ left j))

step-Lives :
    (j j' : Job) (n : ℕ) (o : Option Job)
    → IsRow j'
    → Life j n j'
    → n + left j' ≤ left j
    → Evolves (some j') o
    → Lives o j
step-Lives j j' n none row life bound gone = absurd gone
step-Lives j j' n (some j'') row life bound (inl same) = (n, (j', ap some same, life, bound))
step-Lives j j' n (some j'') row life bound (inr moves) =
    let less = Moves-left j' j'' row moves in (suc n, (j'', refl, moved life moves, omega arith))

Trace-Lives :
    {first last : Db} (k : ℕ) (j : Job)
    → Trace first last
    → get_job k first ≡ some j
    → Lives (get_job k last) j
Trace-Lives k j start e = (0, (j, e, unmoved, omega arith))
Trace-Lives k j (after {db} {db'} trace v evolves) e =
    let (n, (j', found, life, bound)) = Trace-Lives k j trace e in
    step-Lives j j' n (get_job k db') (get_job-IsRow k j' db v found) life bound
      (subst (λ o. Evolves o (get_job k db')) found (evolves k))

-- The row of a job at the end, and how many transitions it made at most.
abbrev pub EndsSoon : Option Job → Job → Type 0
EndsSoon o j =
    (n : ℕ) × (n ≤ 2 * j.max_retries + 3)
    × ((j' : Job) × (o ≡ some j') × Life j n j' × (n + left j' ≤ left j))

pub Trace-EndsSoon :
    {first last : Db} (k : ℕ) (j : Job)
    → Trace first last
    → get_job k first ≡ some j
    → EndsSoon (get_job k last) j
Trace-EndsSoon k j trace e =
    let (n, (j', found, life, bound)) = Trace-Lives k j trace e in
    let most : left j ≤ 2 * j.max_retries + 3 =
      transitions_left_most j.status j.attempt_count j.max_retries in
    (n, omega arith, (j', found, life, bound))
