-- ===== src/Sql/Order.antt =====
-- Sorting and limiting keep the keys of a table unique.
use digitalocean.Base.{
  ℕ, zero, suc, ◌≡◌, refl, Bool, false, List, [], ◌∷◌, ◌==◌, is_some, arith, Bool-cases, inl, inr,
}
use digitalocean.Sql.{find, insert_by, order_by, limit}
use digitalocean.Sql.Sort.{All}
use digitalocean.Sql.Update.{Unique}

module _ {ℓ} {A : Type ℓ} (key : A → ℕ) where
  abbrev has : ℕ → List A → Bool
  has k xs = is_some (find (λ y. key y == k) xs)

  module _ (before : A → A → Bool) where
    has-insert_by : (k : ℕ) (x : A) (xs : List A) → has k (insert_by before x xs) ≡ has k (x ∷ xs)
    has-insert_by k x [] = refl
    has-insert_by k x (y ∷ ys) = elim (Bool-cases (before y x)) [
      | inl e ↦ rw e (ground (arith, has-insert_by k x ys))
      | inr e ↦ rw e refl
    ]

    Unique-insert_by :
        (x : A) (xs : List A)
        → has (key x) xs ≡ false
        → Unique key xs
        → Unique key (insert_by before x xs)
    Unique-insert_by x [] fresh u = (refl, tt)
    Unique-insert_by x (y ∷ ys) fresh u = elim (Bool-cases (before y x)) [
      | inl e ↦
          let rest = Unique-insert_by x ys (ground arith) u.1 in
          let same = has-insert_by (key y) x ys in rw e (rw same (ground arith), rest)
      | inr e ↦ rw e (fresh, u)
    ]

    has-order_by : (k : ℕ) (xs : List A) → has k (order_by before xs) ≡ has k xs
    has-order_by k [] = refl
    has-order_by k (x ∷ xs) =
        let rest = has-order_by k xs in
        let here = has-insert_by k x (order_by before xs) in ground arith

    pub Unique-order_by : (xs : List A) → Unique key xs → Unique key (order_by before xs)
    Unique-order_by [] u = u
    Unique-order_by (x ∷ xs) u =
        Unique-insert_by x (order_by before xs) (rw (has-order_by (key x) xs) u.0)
          (Unique-order_by xs u.1)

  absent-limit : (k n : ℕ) (xs : List A) → has k xs ≡ false → has k (limit n xs) ≡ false
  absent-limit k zero xs h = refl
  absent-limit k (suc n) [] h = refl
  absent-limit k (suc n) (x ∷ xs) h = let rest = absent-limit k n xs in ground arith

  pub Unique-limit : (n : ℕ) (xs : List A) → Unique key xs → Unique key (limit n xs)
  Unique-limit zero xs u = tt
  Unique-limit (suc n) [] u = tt
  Unique-limit (suc n) (x ∷ xs) u = (absent-limit (key x) n xs u.0, Unique-limit n xs u.1)

pub All-limit {ℓ κ} :
    {A : Type ℓ} (P : A → Type κ) (n : ℕ) (xs : List A) → All P xs → All P (limit n xs)
All-limit P zero xs a = tt
All-limit P (suc n) [] a = tt
All-limit P (suc n) (x ∷ xs) a = (a.0, All-limit P n xs a.1)
