-- ===== src/Sql/Returning.antt =====
-- An update by key, and the row that it returns.
use digitalocean.Base.{
  ℕ, ◌≡◌, refl, Bool, true, false, ◌&&◌, none, some, List, [], ◌∷◌, ◌==◌, is_some, if◌then◌else◌,
  arith, Bool-cases, inl, inr, subst, some_inj,
}
use native.Mathlib.Decide.{ℕ_discrete}
use digitalocean.Sql.{find, update, delete, first, returning}
use digitalocean.Sql.Update.{Unique}

module _ {ℓ} {A : Type ℓ} (key : A → ℕ) where
  -- An update of the row of a key that is not there.
  update-absent :
      (k : ℕ) (p : A → Bool) (f : A → A) (xs : List A)
      → is_some (find (λ a. key a == k) xs) ≡ false
      → update (λ a. key a == k && p a) f xs ≡ xs
  update-absent k p f [] h = refl
  update-absent k p f (x ∷ xs) h = ground (arith, update-absent k p f xs)

  plain_test :
      (k : ℕ) (f : A → A) (xs : List A)
      → update (λ a. key a == k) f xs ≡ update (λ a. key a == k && true) f xs
  plain_test k f [] = refl
  plain_test k f (x ∷ xs) = ground (arith, plain_test k f xs)

  returning-absent :
      (k : ℕ) (p : A → Bool) (f : A → A) (xs : List A)
      → is_some (find (λ a. key a == k) xs) ≡ false
      → returning (λ a. key a == k && p a) f xs ≡ []
  returning-absent k p f [] h = refl
  returning-absent k p f (x ∷ xs) h = ground (arith, returning-absent k p f xs)

  -- Where the row of the key passes a test, an update need not test it.
  pub update-key :
      (k : ℕ) (p : A → Bool) (f : A → A) (xs : List A) {a : A}
      → Unique key xs
      → find (λ a. key a == k) xs ≡ some a
      → p a ≡ true
      → update (λ a. key a == k) f xs ≡ update (λ a. key a == k && p a) f xs
  update-key k p f [] u e h = refl
  update-key k p f (x ∷ xs) {a} u e h = elim (ℕ_discrete (key x) k) [
    | yes same ↦
        let gone = subst (λ m. is_some (find (λ y. key y == m) xs) ≡ false) same u.0 in
        let rest = update-absent k p f xs gone in
        let plain = update-absent k (λ y. true) f xs gone in ground (arith, plain_test k f xs)
    | no other ↦ ground (arith, update-key k p f xs {a = a} u.1)
  ]

  -- The first row that an update of one key returns.
  pub first-returning :
      (k : ℕ) (p : A → Bool) (f : A → A) (xs : List A)
      → Unique key xs
      → first (returning (λ a. key a == k && p a) f xs) ≡ elim (find (λ a. key a == k) xs) [
        | none ↦ none
        | some a ↦ if p a then some (f a) else none
      ]
  first-returning k p f [] u = refl
  first-returning k p f (x ∷ xs) u = elim (ℕ_discrete (key x) k) [
    | yes same ↦
        let gone = subst (λ m. is_some (find (λ y. key y == m) xs) ≡ false) same u.0 in
        ground (arith, returning-absent k p f xs gone)
    | no other ↦ ground (arith, first-returning k p f xs u.1)
  ]

  -- The same without a further test.
  pub first-returning_key :
      (k : ℕ) (f : A → A) (xs : List A) {a : A}
      → find (λ x. key x == k) xs ≡ some a
      → first (returning (λ x. key x == k) f xs) ≡ some (f a)
  first-returning_key k f [] e = cc
  first-returning_key k f (x ∷ xs) {a} e = elim (Bool-cases (key x == k)) [
    | inl mine ↦ let same : x ≡ a = some_inj (rw mine at e) in rw (mine, same) refl
    | inr other ↦ rw other (first-returning_key k f xs {a = a} (rw other at e))
  ]

  pub delete-absent :
      (k : ℕ) (xs : List A)
      → is_some (find (λ a. key a == k) xs) ≡ false
      → delete (λ a. key a == k) xs ≡ xs
  delete-absent k [] h = refl
  delete-absent k (x ∷ xs) h = ground (arith, delete-absent k xs)
