-- ===== src/Postgres/Locks/Refines.antt =====
-- The two statements of a claim look like one, and no two claims hold the same row.
use digitalocean.Base.{
  ℕ, ◌≡◌, refl, Bool, true, false, ◌||◌, Option, none, some, List, [], ◌∷◌, ◌++◌, ◌==◌,
  if◌then◌else◌, arith, Bool-cases, inl, inr, subst, ◌∙◌, sym, some_inj, ap,
}
use digitalocean.Models.{Job}
use digitalocean.Sql.{find, delete}
use digitalocean.Sql.Update.{Unique, Unique-append, find-append, find_sound}
use digitalocean.Repository.Store.{Db, get_job}
use digitalocean.Repository.Claim.{is_due, lock}
use digitalocean.Repository.Claim.Pick.{Stands, pick-some}
use digitalocean.Repository.Claim.Order.{locking, locked_rows}
use digitalocean.Repository.Invariant.{IsValid}
use digitalocean.System.Steps.{IsGood}
use digitalocean.System.Claim.{locking-IsValid}
use digitalocean.Postgres.Claim.{is_free, next_free, claim_row}
use digitalocean.Postgres.Claim.Skips.{claim_row-locking}
use digitalocean.Postgres.Locks.{
  Claim, State, of_row, is_locked, Event, handed, Step, choose, write, abort, other, Runs, stop,
  quiet, seen, Spec, done, hand, change,
}

abbrev claim_key : Claim → ℕ
claim_key c = c.row.id

find-delete_claim :
    (k m : ℕ) (claims : List Claim)
    → find (of_row m) (delete (of_row k) claims) ≡ (if k == m then none else find (of_row m) claims)
find-delete_claim k m [] = ground arith
find-delete_claim k m (c ∷ claims) = ground (arith, find-delete_claim k m claims)

Unique-delete :
    (k : ℕ) (claims : List Claim)
    → Unique claim_key claims
    → Unique claim_key (delete (of_row k) claims)
Unique-delete k [] u = u
Unique-delete k (c ∷ claims) u = elim (Bool-cases (of_row k c)) [
  | inl it ↦ rw it (Unique-delete k claims u.1)
  | inr not_it ↦
      rw not_it
        (rw (find-delete_claim k c.row.id claims) (ground arith), Unique-delete k claims u.1)
]

-- The rows that the claims have chosen are due, and stand in the tables as they were read.
abbrev pub Keeps : Db → List Claim → Type 0
Keeps db claims =
    (k : ℕ) (c : Claim) → find (of_row k) claims ≡ some c → Stands (is_due c.started) db c.row

pub record IsLocked (s : State) : Type 0 where
  pub valid : IsValid s.db
  pub apart : Unique claim_key s.claims
  pub keeps : Keeps s.db s.claims

-- The row of a claim that is looked up is its own.
pub of_claim :
    (k : ℕ) (claims : List Claim) (c : Claim) → find (of_row k) claims ≡ some c → c.row.id ≡ k
of_claim k claims c e = let it = find_sound (of_row k) claims e in ground arith

pub choose-IsLocked :
    (s : State) (held : ℕ → Bool) (now w : ℕ) (row : Job)
    → IsLocked s
    → next_free (λ k. is_locked s.claims k || held k) now s.db.jobs ≡ some row
    → IsLocked
        (record s { claims = s.claims ++ record { worker = w; started = now; row = row } ∷ [] })
unfolding next_free
choose-IsLocked s held now w row inv e =
    let c : Claim = record { worker = w; started = now; row = row } in
    let ((found, free), outranks) =
      pick-some (is_free (λ k. is_locked s.claims k || held k) now) s.db row inv.valid.keys e in
    record {
      valid = inv.valid;
      apart = Unique-append claim_key s.claims c (ground arith) inv.apart;
      keeps = λ k d known. elim (Bool-cases (is_locked s.claims k)) [
        | inl old ↦ inv.keeps k d (sym (find-append (of_row k) s.claims c ∙ rw old refl) ∙ known)
        | inr new ↦ elim (Bool-cases (of_row k c)) [
          | inl mine ↦
              let same : c ≡ d =
                some_inj (sym (find-append (of_row k) s.claims c ∙ rw (new, mine) refl) ∙ known) in
              subst (λ (x : Claim). Stands (is_due x.started) s.db x.row) same (found, ground arith)
          | inr no_one ↦ absurd (
              let gone : none ≡ some d =
                sym (find-append (of_row k) s.claims c ∙ rw (new, no_one) refl) ∙ known in
              cc)
        ]
      ];
    }

-- The claims after one of them ended, on tables that keep the others' rows.
deleted-Keeps :
    (k : ℕ) (db db' : Db) (claims : List Claim)
    → ((m : ℕ) → (k == m) ≡ false → get_job m db' ≡ get_job m db)
    → Keeps db claims
    → Keeps db' (delete (of_row k) claims)
deleted-Keeps k db db' claims same keeps m c e = elim (Bool-cases (k == m)) [
  | inl mine ↦
      absurd
        (let gone : none ≡ some c = sym (find-delete_claim k m claims ∙ rw mine refl) ∙ e in cc)
  | inr other_row ↦
      let there : find (of_row m) claims ≡ some c =
        sym (find-delete_claim k m claims ∙ rw other_row refl) ∙ e in
      let (found, due) = keeps m c there in
      let named = of_claim m claims c there in (same c.row.id (rw named other_row) ∙ found, due)
]

pub written-row :
    (s : State) (c : Claim)
    → IsLocked s
    → find (of_row c.row.id) s.claims ≡ some c
    → claim_row c.started c.worker s.db (some c.row)
      ≡ (locking c.started c.worker s.db c.row, some (lock c.started c.worker c.row))
written-row s c inv e =
    claim_row-locking c.started c.worker s.db c.row inv.valid (inv.keeps c.row.id c e)

pub write-IsLocked :
    (s : State) (c : Claim)
    → IsLocked s
    → find (of_row c.row.id) s.claims ≡ some c
    → IsLocked (record {
      db = locking c.started c.worker s.db c.row;
      claims = delete (of_row c.row.id) s.claims;
    })
write-IsLocked s c inv e =
    let db' = locking c.started c.worker s.db c.row in
    record {
      valid = locking-IsValid c.started c.worker s.db c.row inv.valid;
      apart = Unique-delete c.row.id s.claims inv.apart;
      keeps =
          deleted-Keeps c.row.id s.db db' s.claims
            (λ m ne.
              locked_rows c.started c.worker s.db c.row (inv.keeps c.row.id c e) m ∙ rw ne refl)
            inv.keeps;
    }

pub abort-IsLocked :
    (s : State) (k : ℕ) → IsLocked s → IsLocked (record s { claims = delete (of_row k) s.claims })
abort-IsLocked s k inv = record {
  valid = inv.valid;
  apart = Unique-delete k s.claims inv.apart;
  keeps = deleted-Keeps k s.db s.db s.claims (λ m ne. refl) inv.keeps;
}

pub other-IsLocked :
    (s : State) (db' : Db)
    → IsLocked s
    → IsGood s.db db'
    → ((k : ℕ) → is_locked s.claims k ≡ true → get_job k db' ≡ get_job k s.db)
    → IsLocked (record s { db = db' })
other-IsLocked s db' inv good kept = record {
  valid = good.valid;
  apart = inv.apart;
  keeps = λ k c e.
      let (found, due) = inv.keeps k c e in
      let named = of_claim k s.claims c e in (kept c.row.id (rw (named, e) refl) ∙ found, due);
}

-- A step that a client does not see leaves the tables.
quiet_step :
    {s t : State} {o : Option Event}
    → IsLocked s
    → Step s o t
    → o ≡ none
    → (t.db ≡ s.db) × IsLocked t
quiet_step inv (choose s held now w row e) h = (refl, choose-IsLocked s held now w row inv e)
quiet_step inv (write s c e) h = cc
quiet_step inv (abort s k) h = (refl, abort-IsLocked s k inv)
quiet_step inv (other s db' good kept) h = cc

-- A step that a client sees is one of the specification's.
seen_step :
    {s t : State} {o : Option Event} {e : Event} {es : List Event} {last : Db}
    → IsLocked s
    → Step s o t
    → o ≡ some e
    → IsLocked t × (Spec t.db es last → Spec s.db (e ∷ es) last)
seen_step inv (choose s held now w row e) h = cc
seen_step {e} {es} {last} inv (write s c chosen) h =
    let same = written-row s c inv chosen in
    let event = some_inj h in
    (
      rw same (write-IsLocked s c inv chosen),
      λ rest.
          subst (λ x. Spec s.db (x ∷ es) last) (sym (ap (λ r. handed c.worker r.1) same) ∙ event)
            (hand s.db c.started c.worker c.row (inv.keeps c.row.id c chosen)
              (subst (λ r. Spec r.0 es last) same rest)),
    )
seen_step inv (abort s k) h = cc
seen_step {e} {es} {last} inv (other s db' good kept) h = (
  other-IsLocked s db' inv good kept,
  λ rest. subst (λ x. Spec s.db (x ∷ es) last) (some_inj h) (change s.db db' good rest),
)

-- From a state in which the chosen rows of the open claims are due and stand in consistent tables,
-- no two of them the same, every interleaving of the two statements of PostgreSQL claims with
-- rollbacks and with the commits of other transactions that leave locked rows alone shows its
-- clients events of the specification, where a claim is one step without locks that hands out a row
-- of a due job as it stands, locked by the worker; and in the last state again no two open claims
-- hold the same row.
pub claims_refine :
    {s t : State} {es : List Event} → IsLocked s → Runs s es t → Spec s.db es t.db × IsLocked t
claims_refine inv (stop s) = (done s.db, inv)
claims_refine {t} {es} inv (quiet step runs) =
    let (same, inv') = quiet_step inv step refl in
    let (rest, last) = claims_refine inv' runs in (subst (λ d. Spec d es t.db) same rest, last)
claims_refine inv (seen step runs) =
    let (inv', put) = seen_step inv step refl in
    let (rest, last) = claims_refine inv' runs in (put rest, last)
