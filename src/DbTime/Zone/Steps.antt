-- ===== src/DbTime/Zone/Steps.antt =====
-- The day after a date and the day before it, and the instants of datetimes with an offset.
use digitalocean.Base.{
  ℕ, zero, suc, ◌+◌, ◌-◌, ◌≤◌, ◌<◌, ◌≡◌, refl, Option, none, some, ltb, arith, Bool-cases, inl, inr,
  subst, some_inj,
}
use native.Mathlib.Numerals.{add-one}
use digitalocean.DbTime.{DateTime, IsDateTime}
use digitalocean.DbTime.Calendar.{
  days_in_month, days_in_year, days_before_month, days_before_year, to_ordinal, IsDate,
  twelve_months, before_year-suc,
}
use digitalocean.DbTime.Zone.{next_day, previous_day}

pub days_in_month_range : (y m : ℕ) → (28 ≤ days_in_month y m) × (days_in_month y m ≤ 31)
unfolding days_in_month
days_in_month_range y m = ground arith

before_month-suc :
    (y m : ℕ) → 1 ≤ m → days_before_month y (m + 1) ≡ days_before_month y m + days_in_month y m
unfolding days_before_month
before_month-suc y zero h = absurd (ground arith)
before_month-suc y (suc m) h = rw (add-one (suc m)) refl

before_year-step : (y : ℕ) → 1 ≤ y → days_before_year (y + 1) ≡ days_before_year y + days_in_year y
before_year-step zero h = absurd (ground arith)
before_year-step (suc y) h = rw (add-one (suc y)) (before_year-suc y)

-- December 31, and January 1.
december_end :
    (t : DateTime)
    → IsDate t
    → t.month ≡ 12
    → (days_in_month t.year t.month ≡ 31)
      × (to_ordinal t ≡ days_before_year t.year + days_in_year t.year + t.day - 31)
unfolding days_in_month
december_end t date e = let whole = twelve_months t.year in rw e (refl, omega arith)

december_length : (y : ℕ) → days_in_month y 12 ≡ 31
unfolding days_in_month
december_length y = refl

january_start : (y : ℕ) → (days_before_month y 1 ≡ 0) × (days_in_month y 1 ≡ 31)
unfolding days_before_month days_in_month
january_start y = (refl, refl)

-- The date of a day number, with the microsecond of another datetime.
pub record DayOf (n : ℕ) (t d : DateTime) : Type 0 where
  pub date : IsDate d
  pub fits : d.year ≤ 9999
  pub same : d.microsecond ≡ t.microsecond
  pub ordinal : to_ordinal d ≡ n

pub next_day-DayOf :
    (t d : DateTime) → IsDateTime t → IsDate t → next_day t ≡ some d → DayOf (to_ordinal t + 1) t d
unfolding next_day
next_day-DayOf t d ok date e =
    let length = days_in_month_range t.year t.month in
    elim (Bool-cases (ltb t.day (days_in_month t.year t.month))) [
      | inl inside ↦
          subst (DayOf (to_ordinal t + 1) t) (some_inj (rw (inside, next_day) at e)) (record {
            date = (date.0, date.1, date.2, omega arith, ground arith);
            fits = omega arith;
            same = refl;
            ordinal = omega arith;
          })
      | inr last ↦ elim (Bool-cases (ltb t.month 12)) [
        | inl inside ↦
            let step = before_month-suc t.year t.month date.1 in
            let length' = days_in_month_range t.year (t.month + 1) in
            let whole : t.day ≡ days_in_month t.year t.month = ground arith in
            subst (DayOf (to_ordinal t + 1) t) (some_inj (rw (last, inside, next_day) at e))
              (record {
                date = (date.0, omega arith, ground arith, omega arith, omega arith);
                fits = omega arith;
                same = refl;
                ordinal = omega arith;
              })
        | inr december ↦ elim (Bool-cases (ltb t.year 9999)) [
          | inr never ↦ absurd (
              let r : ◌≡◌ {A = Option DateTime} none (some d) =
                rw (last, december, never, next_day) at e in
              cc)
          | inl inside ↦
              subst (DayOf (to_ordinal t + 1) t)
                (some_inj (rw (last, december, inside, next_day) at e))
                (let step = before_year-step t.year date.0 in
                  let range : t.year < 9999 = ground arith in
                  let full : days_in_month t.year t.month ≤ t.day = ground arith in
                  let end = december_end t date (ground arith) in
                  let begin = january_start (t.year + 1) in
                  record {
                    date = (omega arith, omega arith, omega arith, omega arith, omega arith);
                    fits = omega arith;
                    same = refl;
                    ordinal = omega arith;
                  })
        ]
      ]
    ]

pub previous_day-DayOf :
    (t d : DateTime)
    → IsDateTime t
    → IsDate t
    → previous_day t ≡ some d
    → DayOf (to_ordinal t - 1) t d
unfolding previous_day
previous_day-DayOf t d ok date e = elim (Bool-cases (ltb 1 t.day)) [
  | inl inside ↦
      subst (DayOf (to_ordinal t - 1) t) (some_inj (rw (inside, previous_day) at e)) (record {
        date = (date.0, date.1, date.2, ground arith, omega arith);
        fits = omega arith;
        same = refl;
        ordinal = ground arith;
      })
  | inr first ↦ elim (Bool-cases (ltb 1 t.month)) [
    | inl inside ↦
        let before : 1 ≤ t.month - 1 = ground arith in
        let back : t.month - 1 + 1 ≡ t.month = ground arith in
        let step = rw back at (before_month-suc t.year (t.month - 1) before) in
        let length = days_in_month_range t.year (t.month - 1) in
        let only : t.day ≡ 1 = ground arith in
        subst (DayOf (to_ordinal t - 1) t) (some_inj (rw (first, inside, previous_day) at e))
          (record {
            date = (date.0, before, omega arith, omega arith, omega arith);
            fits = omega arith;
            same = refl;
            ordinal = omega arith;
          })
    | inr january ↦ elim (Bool-cases (ltb 1 t.year)) [
      | inr never ↦ absurd (
          let r : ◌≡◌ {A = Option DateTime} none (some d) =
            rw (first, january, never, previous_day) at e in
          cc)
      | inl inside ↦
          let u = record t { year = t.year - 1; month = 12; day = 31 } in
          let before : 1 ≤ t.year - 1 = ground arith in
          let back : t.year - 1 + 1 ≡ t.year = ground arith in
          let step = rw back at (before_year-step (t.year - 1) before) in
          let whole = twelve_months (t.year - 1) in
          let only : t.day ≡ 1 = ground arith in
          let month : t.month ≡ 1 = ground arith in
          let begin : days_before_month t.year t.month ≡ 0 = rw month (january_start t.year).0 in
          subst (DayOf (to_ordinal t - 1) t)
            (some_inj (rw (first, january, inside, previous_day) at e))
            (record {
              date = (
                before,
                omega arith,
                omega arith,
                omega arith,
                rw (december_length (t.year - 1)) (omega arith),
              );
              fits = omega arith;
              same = refl;
              ordinal = omega arith;
            })
    ]
  ]
]

-- There is no day after 9999-12-31 and none before 0001-01-01.
pub next_day-none :
    (t : DateTime)
    → IsDateTime t
    → IsDate t
    → next_day t ≡ none
    → to_ordinal t ≡ days_before_year 10000
unfolding next_day
next_day-none t ok date e =
    let december : t.month ≡ 12 = ground arith in
    let end = december_end t date december in
    let year : t.year ≡ 9999 = ground arith in
    let step = rw year at (before_year-step t.year date.0) in
    let full : days_in_month t.year t.month ≤ t.day = ground arith in rw (end.1, year) (omega arith)

pub previous_day-none : (t : DateTime) → IsDate t → previous_day t ≡ none → to_ordinal t ≡ 1
unfolding previous_day days_before_year days_before_month
previous_day-none t date e =
    let day : t.day ≡ 1 = ground arith in
    let month : t.month ≡ 1 = ground arith in
    let year : t.year ≡ 1 = ground arith in rw (day, month, year) refl
