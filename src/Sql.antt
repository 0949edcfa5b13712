-- ===== src/Sql.antt =====
-- The SQL that app/repository.py uses, over a table as the list of its rows in insertion order.
pub mod Update
pub mod Select
pub mod Returning
pub mod Sort
pub mod Order
pub mod Related
use digitalocean.Base.{ℕ, zero, suc, ◌+◌, Bool, Option, none, some, List, [], ◌∷◌, if◌then◌else◌}

module _ {ℓ} {A : Type ℓ} where
  -- `SELECT * FROM t WHERE p`
  abbrev pub select : (A → Bool) → List A → List A
  select p [] = []
  select p (x ∷ xs) = if p x then x ∷ select p xs else select p xs

  -- The same with `fetchone()`.
  abbrev pub find : (A → Bool) → List A → Option A
  find p [] = none
  find p (x ∷ xs) = if p x then some x else find p xs

  -- `UPDATE t SET f WHERE p`
  abbrev pub update : (A → Bool) → (A → A) → List A → List A
  update p f [] = []
  update p f (x ∷ xs) = (if p x then f x else x) ∷ update p f xs

  -- The rows that `UPDATE t SET f WHERE p RETURNING *` returns.
  abbrev pub returning : (A → Bool) → (A → A) → List A → List A
  returning p f [] = []
  returning p f (x ∷ xs) = if p x then f x ∷ returning p f xs else returning p f xs

  -- `SELECT COUNT(*) FROM t WHERE p`, and the `rowcount` of an update.
  abbrev pub count : (A → Bool) → List A → ℕ
  count p [] = 0
  count p (x ∷ xs) = (if p x then 1 else 0) + count p xs

  -- `DELETE FROM t WHERE p`
  abbrev pub delete : (A → Bool) → List A → List A
  delete p [] = []
  delete p (x ∷ xs) = if p x then delete p xs else x ∷ delete p xs

  -- `ORDER BY`, where `before x y` says that x stands strictly before y; equal rows keep the
  -- order of the table.
  abbrev pub insert_by : (A → A → Bool) → A → List A → List A
  insert_by before x [] = x ∷ []
  insert_by before x (y ∷ ys) = if before y x then y ∷ insert_by before x ys else x ∷ y ∷ ys

  abbrev pub order_by : (A → A → Bool) → List A → List A
  order_by before [] = []
  order_by before (x ∷ xs) = insert_by before x (order_by before xs)

  -- `LIMIT n`
  abbrev pub limit : ℕ → List A → List A
  limit zero xs = []
  limit (suc n) [] = []
  limit (suc n) (x ∷ xs) = x ∷ limit n xs

  -- `ORDER BY ... LIMIT 1` with `fetchone()`.
  abbrev pub first : List A → Option A
  first [] = none
  first (x ∷ xs) = some x
