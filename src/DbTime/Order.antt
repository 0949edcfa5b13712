-- ===== src/DbTime/Order.antt =====
-- The comparison of two texts in SQL is the comparison of their times.
use digitalocean.Base.{
  ℕ, ◌+◌, ◌*◌, ◌/◌, ◌%◌, ◌<◌, ◌≡◌, Bool, true, false, List, [], ◌∷◌, ◌==◌, ltb, if◌then◌else◌,
  arith, Bool-cases, inl, inr, ap, ◌∙◌,
}
use digitalocean.DbTime.{DateTime, IsDateTime, two, fraction, utc, clock, isoformat}

-- The order of texts: by the first character in which they differ.
abbrev pub text_before : List ℕ → List ℕ → Bool
text_before [] [] = false
text_before [] (b ∷ bs) = true
text_before (a ∷ as_) [] = false
text_before (a ∷ as_) (b ∷ bs) =
    if ltb a b then true else (if ltb b a then false else text_before as_ bs)

-- The order of pairs.
abbrev pub by : ℕ → ℕ → Bool → Bool
by a b rest = if ltb a b then true else (if ltb b a then false else rest)

by-two :
    (a b : ℕ) (xs ys : List ℕ)
    → a < 100
    → b < 100
    → text_before (two a xs) (two b ys) ≡ by a b (text_before xs ys)
by-two a b xs ys ha hb = ground arith

by-split :
    (n m : ℕ) (rest : Bool) → by (n / 100) (m / 100) (by (n % 100) (m % 100) rest) ≡ by n m rest
by-split n m rest = ground arith

pub by-last :
    (p q a b : ℕ)
    → a < 1000000
    → b < 1000000
    → by p q (ltb a b) ≡ ltb (p * 1000000 + a) (q * 1000000 + b)
by-last p q a b ha hb = ground arith

by-six :
    (n m : ℕ)
    → by (n / 10000) (m / 10000) (by (n / 100 % 100) (m / 100 % 100) (by (n % 100) (m % 100) false))
      ≡ ltb n m
by-six n m = ground arith

-- A text without a fraction comes first: "+" is before ".".
text_before-fraction :
    (n m : ℕ) → n < 1000000 → m < 1000000 → text_before (fraction n utc) (fraction m utc) ≡ ltb n m
text_before-fraction n m hn hm = elim (Bool-cases (n == 0)) [
  | inl zn ↦ elim (Bool-cases (m == 0)) [
    | inl zm ↦ rw (zn, zm) (ground arith)
    | inr sm ↦ rw (zn, sm) (ground arith)
  ]
  | inr sn ↦ elim (Bool-cases (m == 0)) [
    | inl zm ↦ rw (sn, zm) (ground arith)
    | inr sm ↦ rw (sn, sm) (digits n m hn hm)
  ]
]
  where
    digits :
        (n m : ℕ)
        → n < 1000000
        → m < 1000000
        → text_before
            (two (n / 10000) (two (n / 100 % 100) (two (n % 100) utc)))
            (two (m / 10000) (two (m / 100 % 100) (two (m % 100) utc)))
          ≡ ltb n m
    digits n m hn hm =
        let four = λ (x : ℕ). two (x / 100 % 100) (two (x % 100) utc) in
        by-two (n / 10000) (m / 10000) (four n) (four m) (omega arith) (omega arith)
        ∙ ap (by (n / 10000) (m / 10000)) (
            by-two (n / 100 % 100) (m / 100 % 100) (two (n % 100) utc) (two (m % 100) utc)
              (omega arith) (omega arith)
            ∙ ap (by (n / 100 % 100) (m / 100 % 100))
                (by-two (n % 100) (m % 100) utc utc (omega arith) (omega arith)))
        ∙ by-six n m

text_before-clock :
    (s t : DateTime)
    → IsDateTime s
    → IsDateTime t
    → text_before (clock s) (clock t)
      ≡ by s.hour t.hour
          (by s.minute t.minute (by s.second t.second (ltb s.microsecond t.microsecond)))
text_before-clock s t hs ht =
    let tail = λ (x : DateTime). fraction x.microsecond utc in
    let seconds = λ (x : DateTime). two x.second (tail x) in
    let minutes = λ (x : DateTime). two x.minute (58 ∷ seconds x) in
    by-two s.hour t.hour (58 ∷ minutes s) (58 ∷ minutes t) (omega arith) (omega arith)
    ∙ ap (by s.hour t.hour) (
        by-two s.minute t.minute (58 ∷ seconds s) (58 ∷ seconds t) (omega arith) (omega arith)
        ∙ ap (by s.minute t.minute) (
            by-two s.second t.second (tail s) (tail t) (omega arith) (omega arith)
            ∙ ap (by s.second t.second)
                (text_before-fraction s.microsecond t.microsecond (omega arith) (omega arith))))

-- The comparison of the texts is that of the fields.
pub text_before-fields :
    (s t : DateTime)
    → IsDateTime s
    → IsDateTime t
    → text_before (isoformat s) (isoformat t)
      ≡ by s.year t.year (
          by s.month t.month (
            by s.day t.day (
              by s.hour t.hour
                (by s.minute t.minute (by s.second t.second (ltb s.microsecond t.microsecond))))))
unfolding isoformat
text_before-fields s t hs ht =
    let days = λ (x : DateTime). two x.day (84 ∷ clock x) in
    let months = λ (x : DateTime). two x.month (45 ∷ days x) in
    let years = λ (x : DateTime). two (x.year % 100) (45 ∷ months x) in
    by-two (s.year / 100) (t.year / 100) (years s) (years t) (omega arith) (omega arith)
    ∙ ap (by (s.year / 100) (t.year / 100)) (
        by-two (s.year % 100) (t.year % 100) (45 ∷ months s) (45 ∷ months t) (omega arith)
          (omega arith))
    ∙ by-split s.year t.year (text_before (months s) (months t))
    ∙ ap (by s.year t.year) (
        by-two s.month t.month (45 ∷ days s) (45 ∷ days t) (omega arith) (omega arith)
        ∙ ap (by s.month t.month) (
            by-two s.day t.day (84 ∷ clock s) (84 ∷ clock t) (omega arith) (omega arith)
            ∙ ap (by s.day t.day) (text_before-clock s t hs ht)))
