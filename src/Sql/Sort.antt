-- ===== src/Sql/Sort.antt =====
-- `ORDER BY`: the first row is a least one, and sorting and limiting keep what holds of all rows.
use digitalocean.Base.{
  ◌≡◌, refl, Bool, true, false, some, List, [], ◌∷◌, arith, Bool-cases, inl, inr, some_inj, subst,
  sym,
}
use digitalocean.Sql.{find, select, insert_by, order_by, first}

abbrev pub All {ℓ κ} : {A : Type ℓ} → (A → Type κ) → List A → Type κ
All P [] = Unit
All P (x ∷ xs) = P x × All P xs

module _ {ℓ} {A : Type ℓ} (before : A → A → Bool) where
  All-insert_by {κ} :
      (P : A → Type κ) (x : A) (xs : List A) → P x → All P xs → All P (insert_by before x xs)
  All-insert_by P x [] h a = (h, tt)
  All-insert_by P x (y ∷ ys) h a = elim (Bool-cases (before y x)) [
    | inl e ↦ rw e (a.0, All-insert_by P x ys h a.1)
    | inr e ↦ rw e (h, a)
  ]

  pub All-order_by {κ} : (P : A → Type κ) (xs : List A) → All P xs → All P (order_by before xs)
  All-order_by P [] a = tt
  All-order_by P (x ∷ xs) a = All-insert_by P x (order_by before xs) a.0 (All-order_by P xs a.1)

  module _ (asym : (a b : A) → before a b ≡ true → before b a ≡ false)
      (trans : (a b c : A) → before b a ≡ false → before c b ≡ false → before c a ≡ false) where
    irrefl : (a : A) → before a a ≡ false
    irrefl a = elim (Bool-cases (before a a)) [ inl e ↦ asym a a e | inr e ↦ e ]

    Least-trans :
        (x y : A) (zs : List A)
        → before y x ≡ false
        → All (λ z. before z y ≡ false) zs
        → All (λ z. before z x ≡ false) zs
    Least-trans x y [] h a = tt
    Least-trans x y (z ∷ zs) h a = (trans x y z h a.0, Least-trans x y zs h a.1)

    -- One more row: the head of the sorted rest decides.
    insert-Least :
        (x : A) (xs ys : List A)
        → ((m : A) → first ys ≡ some m → All (λ z. before z m ≡ false) xs)
        → (ys ≡ [] → xs ≡ [])
        → (m : A) → first (insert_by before x ys) ≡ some m
        → All (λ z. before z m ≡ false) (x ∷ xs)
    insert-Least x xs [] least empty m e =
        rw (empty refl) (subst (λ y. before x y ≡ false) (some_inj e) (irrefl x), tt)
    insert-Least x xs (y ∷ ys) least empty m e = elim (Bool-cases (before y x)) [
      | inl earlier ↦
          subst (λ k. All (λ z. before z k ≡ false) (x ∷ xs)) (some_inj (rw earlier at e))
            (asym y x earlier, least y refl)
      | inr later ↦
          subst (λ k. All (λ z. before z k ≡ false) (x ∷ xs)) (some_inj (rw later at e))
            (irrefl x, Least-trans x y xs later (least y refl))
    ]

    pub order_by-nil : (xs : List A) → order_by before xs ≡ [] → xs ≡ []
    order_by-nil [] e = refl
    order_by-nil (x ∷ xs) e = absurd (insert-ne-nil x (order_by before xs) e)
      where
        insert-ne-nil : (x : A) (ys : List A) → insert_by before x ys ≡ [] → ⊥
        insert-ne-nil x [] h = cc
        insert-ne-nil x (y ∷ ys) h = ground arith

    -- No row stands strictly before the first one.
    pub first-order_by :
        (xs : List A) (m : A)
        → first (order_by before xs) ≡ some m
        → All (λ z. before z m ≡ false) xs
    first-order_by [] m e = cc
    first-order_by (x ∷ xs) m e =
        insert-Least x xs (order_by before xs) (first-order_by xs) (order_by-nil xs) m e

module _ {ℓ} {A : Type ℓ} where
  pub All-first {κ} : (P : A → Type κ) (xs : List A) (m : A) → All P xs → first xs ≡ some m → P m
  All-first P [] m a e = cc
  All-first P (x ∷ xs) m a e = subst P (some_inj e) a.0

  All-tail {κ} :
      (P : A → Type κ) (p : A → Bool) (x : A) (xs : List A)
      → All P (select p (x ∷ xs))
      → All P (select p xs)
  All-tail P p x xs all = elim (Bool-cases (p x)) [
    | inl e ↦ let here = rw e at all in here.1
    | inr e ↦ rw e at all
  ]

  -- What holds of the selected rows holds of a selected row that a lookup finds.
  pub find-All {κ} :
      (P : A → Type κ) (p q : A → Bool) (xs : List A) (a : A)
      → All P (select p xs)
      → find q xs ≡ some a
      → p a ≡ true
      → P a
  find-All P p q [] a all e h = cc
  find-All P p q (x ∷ xs) a all e h = elim (Bool-cases (q x)) [
    | inl mine ↦
        let same : x ≡ a = some_inj (rw mine at e) in
        let passes : p x ≡ true = subst (λ y. p y ≡ true) (sym same) h in
        let here = rw passes at all in subst P same here.0
    | inr other ↦ find-All P p q xs a (All-tail P p x xs all) (rw other at e) h
  ]
