-- ===== src/Worker/Gate/Spaced.antt =====
-- A gate is passed by one thread at a time, and once in an interval.
use digitalocean.Base.{
  ℕ, ◌+◌, ◌≤◌, ◌≡◌, refl, Bool, true, false, none, some, List, [], ◌∷◌, ◌==◌, arith, subst, sym,
  ◌∙◌, some_inj,
}
use native.Mathlib.Decide.{ℕ_discrete}
use digitalocean.Worker.Gate.{
  Phase, away, tested, locked, running, Gate, set_phase, at_phase, released, ran, Step, tick, enter,
  refuse, acquire, leave, run, finish, fail, Reach, here, next, new_gate,
}

-- The phases in the lock.
abbrev pub is_inside : Phase → Bool
is_inside away = false
is_inside tested = false
is_inside _ = true

-- Each run starts an interval or more after the one before it.
abbrev pub Gaps : (interval latest : ℕ) → List ℕ → Type 0
Gaps interval latest [] = Unit
Gaps interval latest (r ∷ rs) = (r + interval ≤ latest) × Gaps interval r rs

abbrev pub IsSpaced : (interval : ℕ) → List ℕ → Type 0
IsSpaced interval [] = Unit
IsSpaced interval (r ∷ rs) = Gaps interval r rs

-- The time of the last run is written down.
abbrev Records : ℕ → List ℕ → Type 0
Records last [] = Unit
Records last (r ∷ rs) = r ≡ last

-- A thread in the lock owns it, and one that runs has seen the gate open.
abbrev Fits : (interval : ℕ) → Gate → ℕ → Phase → Type 0
Fits interval g t away = Unit
Fits interval g t tested = Unit
Fits interval g t locked = g.owner ≡ some t
Fits interval g t (running now) = (g.owner ≡ some t) × (g.last + interval ≤ now)

pub record IsGated (interval : ℕ) (g : Gate) : Type 0 where
  pub fits : (t : ℕ) → Fits interval g t (g.phase t)
  pub recorded : Records g.last g.runs
  pub spaced : IsSpaced interval g.runs

module _ (interval : ℕ) where
  -- Whoever is in the lock is the owner.
  inside-owner :
      (g : Gate) (t : ℕ) (p : Phase) → Fits interval g t p → is_inside p ≡ true → g.owner ≡ some t
  inside-owner g t away f h = cc
  inside-owner g t tested f h = cc
  inside-owner g t locked f h = f
  inside-owner g t (running now) f h = f.0

  -- A step of one thread, when the others fit the new gate as they stood in the old one.
  Fits-set :
      (g g' : Gate) (t : ℕ) (p : Phase)
      → Fits interval g' t p
      → ((u : ℕ) → (t == u) ≡ false → Fits interval g' u (g.phase u))
      → (u : ℕ) → Fits interval g' u (set_phase t p g.phase u)
  Fits-set g g' t p mine others u = elim (ℕ_discrete t u) [
    | yes e ↦
        let same : (t == u) ≡ true = ground arith in
        rw same (subst (λ v. Fits interval g' v p) e mine)
    | no ne ↦ let other : (t == u) ≡ false = ground arith in rw other (others u other)
  ]

  -- Fitting depends on the owner and on the time of the last run.
  Fits-same :
      (g g' : Gate) (u : ℕ) (p : Phase)
      → g'.owner ≡ g.owner
      → g'.last ≡ g.last
      → Fits interval g u p
      → Fits interval g' u p
  Fits-same g g' u away o l f = tt
  Fits-same g g' u tested o l f = tt
  Fits-same g g' u locked o l f = o ∙ f
  Fits-same g g' u (running now) o l f = (o ∙ f.0, rw l f.1)

  -- No other thread is in the lock.
  Fits-outside :
      (g g' : Gate) (t u : ℕ) (p : Phase)
      → (t == u) ≡ false
      → g.owner ≡ some t
      → Fits interval g u p
      → Fits interval g' u p
  Fits-outside g g' t u away ne o f = tt
  Fits-outside g g' t u tested ne o f = tt
  Fits-outside g g' t u locked ne o f =
      absurd (let same : t ≡ u = some_inj (sym o ∙ f) in ground arith)
  Fits-outside g g' t u (running now) ne o f =
      absurd (let same : t ≡ u = some_inj (sym o ∙ f.0) in ground arith)

  -- The lock was free.
  Fits-free :
      (g g' : Gate) (u : ℕ) (p : Phase)
      → g.owner ≡ none
      → Fits interval g u p
      → Fits interval g' u p
  Fits-free g g' u away o f = tt
  Fits-free g g' u tested o f = tt
  Fits-free g g' u locked o f = absurd (let no : none ≡ some u = sym o ∙ f in cc)
  Fits-free g g' u (running now) o f = absurd (let no : none ≡ some u = sym o ∙ f.0 in cc)

  released-IsGated :
      (g : Gate) (t : ℕ) → IsGated interval g → g.owner ≡ some t → IsGated interval (released t g)
  released-IsGated g t inv o = record {
    fits =
        Fits-set g (released t g) t away tt
          (λ u ne. Fits-outside g (released t g) t u (g.phase u) ne o (inv.fits u));
    recorded = inv.recorded;
    spaced = inv.spaced;
  }

  -- One more run.
  Gaps-ran :
      (last now : ℕ) (runs : List ℕ)
      → Records last runs
      → IsSpaced interval runs
      → last + interval ≤ now
      → Gaps interval now runs
  Gaps-ran last now [] known spaced late = tt
  Gaps-ran last now (r ∷ rs) known spaced late = (omega arith, spaced)

  quiet-IsGated :
      (g g' : Gate) (t : ℕ) (p : Phase)
      → IsGated interval g
      → g'.owner ≡ g.owner
      → g'.last ≡ g.last
      → g'.runs ≡ g.runs
      → Fits interval g' t p
      → IsGated interval (record g' { phase = set_phase t p g.phase })
  quiet-IsGated g g' t p inv o l r mine = record {
    fits =
        Fits-set g (record g' { phase = set_phase t p g.phase }) t p
          (Fits-same g' (record g' { phase = set_phase t p g.phase }) t p refl refl mine)
          (λ u ne.
            Fits-same g (record g' { phase = set_phase t p g.phase }) u (g.phase u) o l
              (inv.fits u));
    recorded = rw (l, r) inv.recorded;
    spaced = rw r inv.spaced;
  }

  Step-IsGated : {g h : Gate} → IsGated interval g → Step interval g h → IsGated interval h
  Step-IsGated inv (tick g now later) = record {
    fits = λ u. Fits-same g (record g { clock = now }) u (g.phase u) refl refl (inv.fits u);
    recorded = inv.recorded;
    spaced = inv.spaced;
  }
  Step-IsGated inv (enter g t e open_) = quiet-IsGated g g t tested inv refl refl refl tt
  Step-IsGated inv (refuse g t other e held) = quiet-IsGated g g t away inv refl refl refl tt
  Step-IsGated inv (acquire g t e free) =
      let g' = at_phase t locked (record g { owner = some t }) in
      record {
        fits = Fits-set g g' t locked refl (λ u ne. Fits-free g g' u (g.phase u) free (inv.fits u));
        recorded = inv.recorded;
        spaced = inv.spaced;
      }
  Step-IsGated inv (leave g t e closed) =
      released-IsGated g t inv (inside-owner g t (g.phase t) (inv.fits t) (rw e refl))
  Step-IsGated inv (run g t e opened) =
      quiet-IsGated g g t (running g.clock) inv refl refl refl
        (inside-owner g t (g.phase t) (inv.fits t) (rw e refl), ground arith)
  Step-IsGated inv (finish g t now e) =
      let mine : Fits interval g t (running now) = subst (Fits interval g t) e (inv.fits t) in
      record {
        fits =
            Fits-set g (ran t now g) t away tt
              (λ u ne. Fits-outside g (ran t now g) t u (g.phase u) ne mine.0 (inv.fits u));
        recorded = refl;
        spaced = Gaps-ran g.last now g.runs inv.recorded inv.spaced mine.1;
      }
  Step-IsGated inv (fail g t now e) =
      released-IsGated g t inv (inside-owner g t (g.phase t) (inv.fits t) (rw e refl))

  Reach-IsGated : {g h : Gate} → IsGated interval g → Reach interval g h → IsGated interval h
  Reach-IsGated inv here = inv
  Reach-IsGated inv (next r step) = Step-IsGated (Reach-IsGated inv r) step

  new_gate-IsGated : (clock : ℕ) → IsGated interval (new_gate clock)
  new_gate-IsGated clock = record { fits = λ t. tt; recorded = tt; spaced = tt }

  -- Whatever the interleaving of the threads of a pool at a gate is, from a new pool on two
  -- successive runs that raised nothing start at least one interval apart, and at most one thread
  -- is behind the lock of the gate.
  pub Reach-IsSpaced :
      (clock : ℕ) (g : Gate)
      → Reach interval (new_gate clock) g
      → IsSpaced interval g.runs
        × ((t u : ℕ) → is_inside (g.phase t) ≡ true → is_inside (g.phase u) ≡ true → t ≡ u)
  Reach-IsSpaced clock g r =
      let inv = Reach-IsGated (new_gate-IsGated clock) r in
      (
        inv.spaced,
        λ t u in_t in_u. some_inj (
            sym (inside-owner g t (g.phase t) (inv.fits t) in_t)
            ∙ inside-owner g u (g.phase u) (inv.fits u) in_u),
      )
