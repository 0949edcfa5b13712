-- ===== src/Sql/Select.antt =====
-- What a selection keeps of a table with unique keys.
use digitalocean.Base.{
  ℕ, ◌≡◌, refl, Bool, true, false, Option, some, List, [], ◌∷◌, ◌==◌, is_some, arith, Bool-cases,
  inl, inr, subst,
}
use native.Mathlib.Decide.{ℕ_discrete}
use digitalocean.Sql.{find, select}
use digitalocean.Sql.Update.{Unique}

module _ {ℓ} {A : Type ℓ} (key : A → ℕ) (p : A → Bool) where
  pub absent-select :
      (k : ℕ) (xs : List A)
      → is_some (find (λ y. key y == k) xs) ≡ false
      → is_some (find (λ y. key y == k) (select p xs)) ≡ false
  absent-select k [] h = refl
  absent-select k (x ∷ xs) h = ground (arith, absent-select k xs)

  pub Unique-select : (xs : List A) → Unique key xs → Unique key (select p xs)
  Unique-select [] u = u
  Unique-select (x ∷ xs) u = elim (Bool-cases (p x)) [
    | inl e ↦ rw e (absent-select (key x) xs u.0, Unique-select xs u.1)
    | inr e ↦ rw e (Unique-select xs u.1)
  ]

  -- The row of a key is selected exactly if it passes the test.
  pub find-select :
      (k : ℕ) (xs : List A) {a : A}
      → Unique key xs
      → find (λ y. key y == k) xs ≡ some a
      → is_some (find (λ y. key y == k) (select p xs)) ≡ p a
  find-select k [] u e = cc
  find-select k (x ∷ xs) {a} u e = elim (ℕ_discrete (key x) k) [
    | yes h ↦
        let gone =
          subst (λ m. is_some (find (λ y. key y == m) (select p xs)) ≡ false) h
            (absent-select (key x) xs u.0) in
        ground arith
    | no other ↦ ground (arith, find-select k xs {a = a} u.1)
  ]

-- Every row of a list stands in the table, under its own key, and passes a test.
abbrev pub Current {ℓ} : {A : Type ℓ} → (A → ℕ) → (A → Bool) → (ℕ → Option A) → List A → Type ℓ
Current key p row [] = Unit
Current key p row (x ∷ xs) = (row (key x) ≡ some x) × (p x ≡ true) × Current key p row xs

module _ {ℓ} {A : Type ℓ} (key : A → ℕ) (p : A → Bool) where
  -- A longer table and a smaller one agree on the keys of the smaller.
  pub Current-weaken :
      (row row' : ℕ → Option A) (xs : List A)
      → ((k : ℕ) → is_some (find (λ y. key y == k) xs) ≡ true → row' k ≡ row k)
      → Current key p row xs
      → Current key p row' xs
  Current-weaken row row' [] same c = c
  Current-weaken row row' (x ∷ xs) same (e, t, c) =
      (ground (arith, same (key x)), t, Current-weaken row row' xs (λ k h. same k (ground arith)) c)

  find-cons :
      (x : A) (xs : List A)
      → is_some (find (λ y. key y == key x) xs) ≡ false
      → (k : ℕ) → is_some (find (λ y. key y == k) (select p xs)) ≡ true
      → find (λ y. key y == k) (x ∷ xs) ≡ find (λ y. key y == k) xs
  find-cons x xs fresh k h = elim (ℕ_discrete (key x) k) [
    | yes e ↦
        let gone =
          subst (λ m. is_some (find (λ y. key y == m) (select p xs)) ≡ false) e
            (absent-select key p (key x) xs fresh) in
        cc
    | no other ↦ ground arith
  ]

  -- The rows that a table selects are its own.
  pub Current-select :
      (xs : List A) → Unique key xs → Current key p (λ k. find (λ y. key y == k) xs) (select p xs)
  Current-select [] u = tt
  Current-select (x ∷ xs) u =
      let rest =
        Current-weaken (λ k. find (λ y. key y == k) xs) (λ k. find (λ y. key y == k) (x ∷ xs))
          (select p xs) (find-cons x xs u.0) (Current-select xs u.1) in
      elim (Bool-cases (p x)) [ inl e ↦ rw e (ground arith, e, rest) | inr e ↦ rw e rest ]
