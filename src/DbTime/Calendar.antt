-- ===== src/DbTime/Calendar.antt =====
-- The calendar of `datetime`: valid dates, their day numbers, and the microseconds since a fixed
-- time that two datetimes in UTC are compared by.
use digitalocean.Base.{
  ℕ, zero, suc, ◌+◌, ◌-◌, ◌*◌, ◌/◌, ◌%◌, ◌≤◌, ◌≡◌, refl, Bool, ◌&&◌, ◌||◌, not, ◌==◌, if◌then◌else◌,
  arith, Bool-cases, inl, inr,
}
use digitalocean.DbTime.{DateTime}

unfoldable pub is_leap : ℕ → Bool
is_leap y = (y % 4 == 0) && (not (y % 100 == 0) || (y % 400 == 0))

unfoldable pub days_in_month : (year month : ℕ) → ℕ
days_in_month y m =
    if m == 2
    then (if is_leap y then 29 else 28)
    else (if m == 4 || m == 6 || m == 9 || m == 11 then 30 else 31)

-- The days of the year before a month, from 1 on.
unfoldable pub days_before_month : (year month : ℕ) → ℕ
days_before_month y zero = 0
days_before_month y (suc zero) = 0
days_before_month y (suc (suc m)) = days_before_month y (suc m) + days_in_month y (suc m)

-- The days before a year, from 1 on.
unfoldable pub days_before_year : ℕ → ℕ
days_before_year y = let before = y - 1 in before * 365 + before / 4 - before / 100 + before / 400

-- `toordinal`: January 1 of year 1 is day 1.
abbrev pub to_ordinal : DateTime → ℕ
to_ordinal t = days_before_year t.year + days_before_month t.year t.month + t.day

-- Microseconds since December 31 of the year before year 1.
abbrev pub micros : DateTime → ℕ
micros t =
    (((to_ordinal t * 24 + t.hour) * 60 + t.minute) * 60 + t.second) * 1000000 + t.microsecond

-- A date of the calendar.
abbrev pub IsDate : DateTime → Type 0
IsDate t =
    (1 ≤ t.year)
    × (1 ≤ t.month)
    × (t.month ≤ 12)
    × (1 ≤ t.day)
    × (t.day ≤ days_in_month t.year t.month)

abbrev pub days_in_year : ℕ → ℕ
days_in_year y = if is_leap y then 366 else 365

-- Twelve months are a year.
pub twelve_months : (y : ℕ) → days_before_month y 12 + 31 ≡ days_in_year y
unfolding days_before_month days_in_month
twelve_months y = elim (Bool-cases (is_leap y)) [
  | inl leap ↦ rw leap refl
  | inr common ↦ rw common refl
]

pub before_year-suc :
    (y : ℕ) → days_before_year (suc (suc y)) ≡ days_before_year (suc y) + days_in_year (suc y)
unfolding days_before_year is_leap
before_year-suc y = ground arith
