-- ===== src/Sql/Update.antt =====
-- What an update, an insert and a delete do to a lookup.
use mathlib.Core.Option
use digitalocean.Base.{
  ℕ, ◌≡◌, refl, Bool, true, false, ◌&&◌, ◌||◌, none, some, List, [], ◌∷◌, ◌++◌, ◌==◌, is_some,
  if◌then◌else◌, arith, Bool-cases, inl, inr, subst,
}
use native.Mathlib.Decide.{ℕ_discrete}
use digitalocean.Sql.{find, update, count, delete}

module _ {ℓ} {A : Type ℓ} where
  pub find-update :
      (q p : A → Bool) (f : A → A) (xs : List A)
      → ((a : A) → q (f a) ≡ q a)
      → find q (update p f xs) ≡ Option.map (λ a. if p a then f a else a) (find q xs)
  find-update q p f [] h = refl
  find-update q p f (x ∷ xs) h = ground (arith, find-update q p f xs h, h x)

  pub find-append :
      (q : A → Bool) (xs : List A) (x : A)
      → find q (xs ++ x ∷ [])
        ≡ (if is_some (find q xs) then find q xs else (if q x then some x else none))
  find-append q [] x = refl
  find-append q (y ∷ ys) x = ground (arith, find-append q ys x)

  pub is_some-find-append :
      (q : A → Bool) (xs : List A) (x : A)
      → is_some (find q (xs ++ x ∷ [])) ≡ (is_some (find q xs) || q x)
  is_some-find-append q [] x = ground arith
  is_some-find-append q (y ∷ ys) x = ground (arith, is_some-find-append q ys x)

  -- A row that a lookup returns passes its test.
  pub find_sound : (q : A → Bool) (xs : List A) {a : A} → find q xs ≡ some a → q a ≡ true
  find_sound q [] h = cc
  find_sound q (x ∷ xs) {a} h = elim (Bool-cases (q x)) [
    | inl e ↦ ground arith
    | inr e ↦ find_sound q xs (rw e at h)
  ]

  -- A table with no row that passes a test has none that passes a stronger one.
  pub find-stronger :
      (p q : A → Bool) (xs : List A)
      → ((a : A) → q a ≡ true → p a ≡ true)
      → is_some (find p xs) ≡ false
      → is_some (find q xs) ≡ false
  find-stronger p q [] h e = refl
  find-stronger p q (x ∷ xs) h e = ground (arith, h x, find-stronger p q xs h)

module _ {ℓ} {A : Type ℓ} (key : A → ℕ) where
  -- No two rows have the same key.
  abbrev pub Unique : List A → Type 0
  Unique [] = Unit
  Unique (x ∷ xs) = (is_some (find (λ y. key y == key x) xs) ≡ false) × Unique xs

  find-key :
      (k : ℕ) (xs : List A)
      → is_some (find (λ y. key y == k) xs) ≡ false
      → find (λ y. key y == k) xs ≡ none
  find-key k [] h = refl
  find-key k (x ∷ xs) h = ground (arith, find-key k xs)

  count-absent :
      (k : ℕ) (p : A → Bool) (xs : List A)
      → is_some (find (λ y. key y == k) xs) ≡ false
      → count (λ a. key a == k && p a) xs ≡ 0
  count-absent k p [] h = refl
  count-absent k p (x ∷ xs) h = ground (arith, count-absent k p xs)

  -- With unique keys an update by key and a further test meets one row at most.
  pub count-key :
      (k : ℕ) (p : A → Bool) (xs : List A)
      → Unique xs
      → count (λ a. key a == k && p a) xs
        ≡ elim (find (λ a. key a == k) xs) [ none ↦ 0 | some a ↦ if p a then 1 else 0 ]
  count-key k p [] u = refl
  count-key k p (x ∷ xs) u = elim (ℕ_discrete (key x) k) [
    | yes e ↦
        let absent = subst (λ m. is_some (find (λ y. key y == m) xs) ≡ false) e u.0 in
        ground (arith, count-absent k p xs absent)
    | no other ↦ ground (arith, count-key k p xs u.1)
  ]

  absent-update :
      (k : ℕ) (p : A → Bool) (f : A → A) (xs : List A)
      → ((a : A) → key (f a) ≡ key a)
      → is_some (find (λ y. key y == k) xs) ≡ false
      → is_some (find (λ y. key y == k) (update p f xs)) ≡ false
  absent-update k p f [] h e = refl
  absent-update k p f (x ∷ xs) h e = ground (arith, absent-update k p f xs h, h x)

  pub Unique-update :
      (p : A → Bool) (f : A → A) (xs : List A)
      → ((a : A) → key (f a) ≡ key a)
      → Unique xs
      → Unique (update p f xs)
  Unique-update p f [] h u = u
  Unique-update p f (x ∷ xs) h u = (
    absent-update (key (if p x then f x else x)) p f xs h (rw (key-if (p x)) u.0),
    Unique-update p f xs h u.1,
  )
    where
      key-if : (b : Bool) → key (if b then f x else x) ≡ key x
      key-if true = h x
      key-if false = refl

  pub Unique-append :
      (xs : List A) (x : A)
      → is_some (find (λ y. key y == key x) xs) ≡ false
      → Unique xs
      → Unique (xs ++ x ∷ [])
  Unique-append [] x h u = (refl, tt)
  Unique-append (y ∷ ys) x h u = (
    rw (is_some-find-append (λ z. key z == key y) ys x) (ground arith),
    Unique-append ys x (ground arith) u.1,
  )

  pub find-delete :
      (k m : ℕ) (xs : List A)
      → is_some (find (λ a. key a == m) (delete (λ a. key a == k) xs))
        ≡ (if k == m then false else is_some (find (λ a. key a == m) xs))
  find-delete k m [] = ground arith
  find-delete k m (x ∷ xs) = ground (arith, find-delete k m xs)
