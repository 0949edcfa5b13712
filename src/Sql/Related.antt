-- ===== src/Sql/Related.antt =====
-- The same query on two tables whose rows stand for each other.
use digitalocean.Base.{
  refl, ◌++◌, is_some, ℕ, zero, suc, ◌≡◌, Bool, Option, none, some, List, [], ◌∷◌, Bool-cases, inl,
  inr, sym, ◌∙◌,
}
use digitalocean.Sql.{select, find, update, count, insert_by, order_by, limit, first}

module _ {ℓ} {A : Type ℓ} {B : Type ℓ} (R : A → B → Type 0) where
  -- Row by row.
  abbrev pub Related : List A → List B → Type 0
  Related [] [] = Unit
  Related (x ∷ xs) (y ∷ ys) = R x y × Related xs ys
  Related _ _ = ⊥

  abbrev pub RelatedAny : Option A → Option B → Type 0
  RelatedAny none none = Unit
  RelatedAny (some x) (some y) = R x y
  RelatedAny _ _ = ⊥

  module _ (p : A → Bool) (q : B → Bool) (agree : (x : A) (y : B) → R x y → p x ≡ q y) where
    pub select-Related :
        (xs : List A) (ys : List B) → Related xs ys → Related (select p xs) (select q ys)
    select-Related [] [] r = tt
    select-Related [] (y ∷ ys) r = absurd r
    select-Related (x ∷ xs) [] r = absurd r
    select-Related (x ∷ xs) (y ∷ ys) (same, rest) = elim (Bool-cases (p x)) [
      | inl yes_p ↦
          let yes_q = sym (agree x y same) ∙ yes_p in
          rw (yes_p, yes_q) (same, select-Related xs ys rest)
      | inr no_p ↦
          let no_q = sym (agree x y same) ∙ no_p in rw (no_p, no_q) (select-Related xs ys rest)
    ]

    pub find-Related :
        (xs : List A) (ys : List B) → Related xs ys → RelatedAny (find p xs) (find q ys)
    find-Related [] [] r = tt
    find-Related [] (y ∷ ys) r = absurd r
    find-Related (x ∷ xs) [] r = absurd r
    find-Related (x ∷ xs) (y ∷ ys) (same, rest) = elim (Bool-cases (p x)) [
      | inl yes_p ↦ let yes_q = sym (agree x y same) ∙ yes_p in rw (yes_p, yes_q) same
      | inr no_p ↦
          let no_q = sym (agree x y same) ∙ no_p in rw (no_p, no_q) (find-Related xs ys rest)
    ]

    pub count-Related : (xs : List A) (ys : List B) → Related xs ys → count p xs ≡ count q ys
    count-Related [] [] r = refl
    count-Related [] (y ∷ ys) r = absurd r
    count-Related (x ∷ xs) [] r = absurd r
    count-Related (x ∷ xs) (y ∷ ys) (same, rest) =
        rw (agree x y same, count-Related xs ys rest) refl

    pub update-Related :
        (f : A → A) (g : B → B)
        → ((x : A) (y : B) → R x y → R (f x) (g y))
        → (xs : List A) (ys : List B) → Related xs ys
        → Related (update p f xs) (update q g ys)
    update-Related f g keeps [] [] r = tt
    update-Related f g keeps [] (y ∷ ys) r = absurd r
    update-Related f g keeps (x ∷ xs) [] r = absurd r
    update-Related f g keeps (x ∷ xs) (y ∷ ys) (same, rest) = elim (Bool-cases (p x)) [
      | inl yes_p ↦
          let yes_q = sym (agree x y same) ∙ yes_p in
          rw (yes_p, yes_q) (keeps x y same, update-Related f g keeps xs ys rest)
      | inr no_p ↦
          let no_q = sym (agree x y same) ∙ no_p in
          rw (no_p, no_q) (same, update-Related f g keeps xs ys rest)
    ]

  module _ (before : A → A → Bool) (before' : B → B → Bool)
      (agree : (x x' : A) (y y' : B) → R x y → R x' y' → before x x' ≡ before' y y') where
    insert_by-Related :
        (x : A) (y : B) (xs : List A) (ys : List B)
        → R x y
        → Related xs ys
        → Related (insert_by before x xs) (insert_by before' y ys)
    insert_by-Related x y [] [] same r = (same, tt)
    insert_by-Related x y [] (y' ∷ ys) same r = absurd r
    insert_by-Related x y (x' ∷ xs) [] same r = absurd r
    insert_by-Related x y (x' ∷ xs) (y' ∷ ys) same (same', rest) = elim (Bool-cases (before x' x)) [
      | inl yes_x ↦
          let yes_y = sym (agree x' x y' y same' same) ∙ yes_x in
          rw (yes_x, yes_y) (same', insert_by-Related x y xs ys same rest)
      | inr no_x ↦
          let no_y = sym (agree x' x y' y same' same) ∙ no_x in
          rw (no_x, no_y) (same, (same', rest))
    ]

    pub order_by-Related :
        (xs : List A) (ys : List B)
        → Related xs ys
        → Related (order_by before xs) (order_by before' ys)
    order_by-Related [] [] r = tt
    order_by-Related [] (y ∷ ys) r = absurd r
    order_by-Related (x ∷ xs) [] r = absurd r
    order_by-Related (x ∷ xs) (y ∷ ys) (same, rest) =
        insert_by-Related x y (order_by before xs) (order_by before' ys) same
          (order_by-Related xs ys rest)

  pub first-Related : (xs : List A) (ys : List B) → Related xs ys → RelatedAny (first xs) (first ys)
  first-Related [] [] r = tt
  first-Related [] (y ∷ ys) r = absurd r
  first-Related (x ∷ xs) [] r = absurd r
  first-Related (x ∷ xs) (y ∷ ys) (same, rest) = same

  pub limit-Related :
      (n : ℕ) (xs : List A) (ys : List B) → Related xs ys → Related (limit n xs) (limit n ys)
  limit-Related zero xs ys r = tt
  limit-Related (suc n) [] [] r = tt
  limit-Related (suc n) [] (y ∷ ys) r = absurd r
  limit-Related (suc n) (x ∷ xs) [] r = absurd r
  limit-Related (suc n) (x ∷ xs) (y ∷ ys) (same, rest) = (same, limit-Related n xs ys rest)

  pub append-Related :
      (x : A) (y : B)
      → R x y
      → (xs : List A) (ys : List B) → Related xs ys
      → Related (xs ++ x ∷ []) (ys ++ y ∷ [])
  append-Related x y s [] [] r = (s, tt)
  append-Related x y s [] (y' ∷ ys) r = absurd r
  append-Related x y s (x' ∷ xs) [] r = absurd r
  append-Related x y s (x' ∷ xs) (y' ∷ ys) (same, rest) = (same, append-Related x y s xs ys rest)

  pub RelatedAny-is_some : (o : Option A) (o' : Option B) → RelatedAny o o' → is_some o ≡ is_some o'
  RelatedAny-is_some none none r = refl
  RelatedAny-is_some none (some y) r = absurd r
  RelatedAny-is_some (some x) none r = absurd r
  RelatedAny-is_some (some x) (some y) r = refl
