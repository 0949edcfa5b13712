-- ===== src/System/Evolve.antt =====
-- The life of a job as a state machine, which every transaction follows.
use mathlib.Core.Option
use digitalocean.Base.{
  ℕ, ◌+◌, ◌≡◌, refl, Bool, true, false, ◌&&◌, ◌⊎◌, inl, inr, Option, none, some, ◌==◌, ltb, leb,
  subst, sym, if◌then◌else◌, Bool-cases,
}
use digitalocean.Models.{Job, JobStatus, queued, running, succeeded, dead_lettered, cancelled}
use digitalocean.Repository.Invariant.{is_terminal}

-- The transitions: the status before and after, the attempts before and after, and the retries.
unfoldable pub allows : JobStatus → JobStatus → (before after max_retries : ℕ) → Bool
allows queued running c c' m = c' == c
allows queued cancelled c c' m = c' == c
allows running succeeded c c' m = c' == c + 1
allows running queued c c' m = c' == c + 1 && leb c' m
allows running dead_lettered c c' m = c' == c + 1 && ltb m c'
allows _ _ c c' m = false

-- What a transition never writes: the identity of a job and its execution policy.
pub record SamePolicy (j j' : Job) : Type 0 where
  pub id : j'.id ≡ j.id
  pub idempotency_key : j'.idempotency_key ≡ j.idempotency_key
  pub request_fingerprint : j'.request_fingerprint ≡ j.request_fingerprint
  pub schedule_id : j'.schedule_id ≡ j.schedule_id
  pub scheduled_for : j'.scheduled_for ≡ j.scheduled_for
  pub payload : j'.payload ≡ j.payload
  pub priority : j'.priority ≡ j.priority
  pub max_retries : j'.max_retries ≡ j.max_retries
  pub timeout_seconds : j'.timeout_seconds ≡ j.timeout_seconds
  pub created_at : j'.created_at ≡ j.created_at

abbrev pub Moves : Job → Job → Type 0
Moves j j' =
    SamePolicy j j'
    × (allows j.status j'.status j.attempt_count j'.attempt_count j.max_retries ≡ true)

-- One transaction on one job: it stays, it makes one transition, or it enters the queue new.
abbrev pub Evolves : Option Job → Option Job → Type 0
Evolves none none = Unit
Evolves none (some j') = (j'.status ≡ queued) × (j'.attempt_count ≡ 0)
Evolves (some j) none = ⊥
Evolves (some j) (some j') = (j' ≡ j) ⊎ Moves j j'

pub Evolves-refl : (o : Option Job) → Evolves o o
Evolves-refl none = tt
Evolves-refl (some j) = inl refl

pub Evolves-same : (o o' : Option Job) → o' ≡ o → Evolves o o'
Evolves-same o o' e = subst (Evolves o) (sym e) (Evolves-refl o)

-- An update evolves the jobs that it meets.
pub Evolves-map :
    (p : Job → Bool) (f : Job → Job) (o : Option Job)
    → ((j : Job) → p j ≡ true → Moves j (f j))
    → Evolves o (Option.map (λ j. if p j then f j else j) o)
Evolves-map p f none moves = tt
Evolves-map p f (some j) moves = elim (Bool-cases (p j)) [
  | inl e ↦ rw e (inr (moves j e))
  | inr e ↦ rw e (inl refl)
]

-- A transition leaves no terminal job, and no job is ever `failed`.
pub allows_terminal :
    (s s' : JobStatus) (c c' m : ℕ) → is_terminal s ≡ true → allows s s' c c' m ≡ false
unfolding allows
allows_terminal queued s' c c' m t = cc
allows_terminal running s' c c' m t = cc
allows_terminal _ s' c c' m t = refl
