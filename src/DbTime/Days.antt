-- ===== src/DbTime/Days.antt =====
-- The day numbers of dates grow with the dates.
use digitalocean.Base.{
  ℕ, zero, suc, ◌+◌, ◌*◌, ◌≤◌, ◌<◌, ◌≡◌, ◌⊎◌, Bool, true, false, ltb, arith, inl, inr, ◌∙◌, subst,
  ap, sym,
}
use native.Mathlib.Decide.{ℕ_discrete}
use digitalocean.DbTime.{DateTime, IsDateTime, isoformat}
use digitalocean.DbTime.Calendar.{
  days_in_month, days_in_year, days_before_month, days_before_year, to_ordinal, micros, IsDate,
  twelve_months, before_year-suc,
}
use digitalocean.DbTime.Order.{by, by-last, text_before, text_before-fields}

months_apart :
    (y m m' : ℕ)
    → 1 ≤ m
    → m < m'
    → days_before_month y m + days_in_month y m ≤ days_before_month y m'
unfolding days_before_month
months_apart y m zero h less = absurd (ground arith)
months_apart y m (suc zero) h less = absurd (ground arith)
months_apart y m (suc (suc n)) h less = elim (ℕ_discrete m (suc n)) [
  | yes e ↦ rw e (omega arith)
  | no ne ↦ let rest = months_apart y m (suc n) h (omega arith) in omega arith
]

years_apart :
    (y y' : ℕ) → 1 ≤ y → y < y' → days_before_year y + days_in_year y ≤ days_before_year y'
years_apart y zero h less = absurd (ground arith)
years_apart y (suc zero) h less = absurd (ground arith)
years_apart y (suc (suc n)) h less =
    let step = before_year-suc n in
    elim (ℕ_discrete y (suc n)) [
      | yes e ↦ rw e (omega arith)
      | no ne ↦ let rest = years_apart y (suc n) h (omega arith) in omega arith
    ]

-- The day of a date within its year.
day_in_year :
    (t : DateTime)
    → IsDate t
    → (1 ≤ days_before_month t.year t.month + t.day)
      × (days_before_month t.year t.month + t.day ≤ days_in_year t.year)
unfolding days_in_month
day_in_year t d =
    let whole = twelve_months t.year in
    elim (ℕ_discrete t.month 12) [
      | yes e ↦
          (omega arith, let last : t.day ≤ 31 = rw (e, days_in_month) at d.4 in rw e (omega arith))
      | no ne ↦
          let before = months_apart t.year t.month 12 d.1 (omega arith) in
          (omega arith, omega arith)
    ]

-- The day numbers up to 9999-12-31.
pub to_ordinal_range :
    (t : DateTime)
    → IsDate t
    → t.year ≤ 9999
    → (1 ≤ to_ordinal t) × (to_ordinal t ≤ days_before_year 10000)
to_ordinal_range t d h =
    let inside = day_in_year t d in
    let apart = years_apart t.year 10000 d.0 (omega arith) in (omega arith, omega arith)

by_first : (a b : ℕ) (rest : Bool) → a < b → by a b rest ≡ true
by_first a b rest h = ground arith

by_second : (a b : ℕ) (rest : Bool) → b < a → by a b rest ≡ false
by_second a b rest h = ground arith

by_same : (a b : ℕ) (rest : Bool) → a ≡ b → by a b rest ≡ rest
by_same a b rest e = ground arith

-- Three ways for two numbers.
ordered : (a b : ℕ) → (a ≡ b) ⊎ ((a < b) ⊎ (b < a))
ordered a b = ground arith

-- The days of two years do not meet.
year_before : (s t : DateTime) → IsDate s → IsDate t → s.year < t.year → to_ordinal s < to_ordinal t
year_before s t hs ht less =
    let apart = years_apart s.year t.year hs.0 less in
    let in_s = day_in_year s hs in let in_t = day_in_year t ht in omega arith

-- The days of two months of a year do not meet.
month_before :
    (s t : DateTime)
    → IsDate s
    → IsDate t
    → s.year ≡ t.year
    → s.month < t.month
    → to_ordinal s < to_ordinal t
month_before s t hs ht e less =
    let same = ap days_before_year e in
    let apart : days_before_month s.year s.month + days_in_month s.year s.month
        ≤ days_before_month t.year t.month =
      subst
        (λ y.
          days_before_month s.year s.month + days_in_month s.year s.month
          ≤ days_before_month y t.month)
        e (months_apart s.year s.month t.month hs.1 less) in
    omega arith

-- Dates compare by their year, month and day as their day numbers do.
pub by-to_ordinal :
    (s t : DateTime) (rest : Bool)
    → IsDate s
    → IsDate t
    → by s.year t.year (by s.month t.month (by s.day t.day rest))
      ≡ by (to_ordinal s) (to_ordinal t) rest
by-to_ordinal s t rest hs ht = elim (ordered s.year t.year) [
  | inr (inl h) ↦
      by_first s.year t.year _ h
      ∙ sym (by_first (to_ordinal s) (to_ordinal t) rest (year_before s t hs ht h))
  | inr (inr h) ↦
      by_second s.year t.year _ h
      ∙ sym (by_second (to_ordinal s) (to_ordinal t) rest (year_before t s ht hs h))
  | inl e ↦ by_same s.year t.year _ e ∙ elim (ordered s.month t.month) [
    | inr (inl h) ↦
        by_first s.month t.month _ h
        ∙ sym (by_first (to_ordinal s) (to_ordinal t) rest (month_before s t hs ht e h))
    | inr (inr h) ↦
        by_second s.month t.month _ h
        ∙ sym (by_second (to_ordinal s) (to_ordinal t) rest (month_before t s ht hs (sym e) h))
    | inl m ↦
        by_same s.month t.month _ m
        ∙ rw (e, m) (shifted (days_before_year t.year + days_before_month t.year t.month))
  ]
]
  where
    shifted : (k : ℕ) → by s.day t.day rest ≡ by (k + s.day) (k + t.day) rest
    shifted k = ground arith

-- A digit of the time of day less to compare.
by-day :
    (p q a b : ℕ) (rest : Bool)
    → a < 24
    → b < 24
    → by p q (by a b rest) ≡ by (p * 24 + a) (q * 24 + b) rest
by-day p q a b rest ha hb = ground arith

by-sixty :
    (p q a b : ℕ) (rest : Bool)
    → a < 60
    → b < 60
    → by p q (by a b rest) ≡ by (p * 60 + a) (q * 60 + b) rest
by-sixty p q a b rest ha hb = ground arith

-- The texts that two datetimes in UTC are stored as compare, character by character, as the
-- microseconds of the calendar that the two are apart.
pub text_before-isoformat :
    (s t : DateTime)
    → IsDateTime s
    → IsDateTime t
    → IsDate s
    → IsDate t
    → text_before (isoformat s) (isoformat t) ≡ ltb (micros s) (micros t)
text_before-isoformat s t hs ht ds dt =
    text_before-fields s t hs ht
    ∙ by-to_ordinal s t _ ds dt
    ∙ by-day (to_ordinal s) (to_ordinal t) s.hour t.hour _ (omega arith) (omega arith)
    ∙ by-sixty _ _ s.minute t.minute _ (omega arith) (omega arith)
    ∙ by-sixty _ _ s.second t.second _ (omega arith) (omega arith)
    ∙ by-last _ _ s.microsecond t.microsecond (omega arith) (omega arith)
