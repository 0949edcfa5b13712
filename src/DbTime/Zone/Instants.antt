-- ===== src/DbTime/Zone/Instants.antt =====
-- The conversion to UTC keeps the instant, and fails exactly where Python has no date for it.
use mathlib.Core.Option
use digitalocean.Base.{
  ℕ, ◌+◌, ◌-◌, ◌*◌, ◌≤◌, ◌<◌, ◌≡◌, ◌⊎◌, refl, Option, none, some, List, ltb, leb, arith, Bool-cases,
  Option-cases, inl, inr, ◌∙◌, subst, some_inj,
}
use digitalocean.DbTime.{DateTime, IsDateTime, isoformat, parse_db_time}
use digitalocean.DbTime.Calendar.{days_before_year, to_ordinal, micros, IsDate}
use digitalocean.DbTime.Order.{text_before}
use digitalocean.DbTime.Days.{to_ordinal_range, text_before-isoformat}
use digitalocean.DbTime.RoundTrip.{parse_db_time-isoformat}
use digitalocean.DbTime.Zone.{
  Zone, Value, naive, east, west, second_of, at_second, sooner, later, next_day, previous_day,
  as_utc, to_db_time, normalize_run_at,
}
use digitalocean.DbTime.Zone.Steps.{
  DayOf, days_in_month_range, next_day-DayOf, previous_day-DayOf, next_day-none, previous_day-none,
}

-- Microseconds of a day.
abbrev pub day_micros : ℕ
day_micros = 86400000000

-- The offsets that Python accepts.
abbrev pub IsZone : Zone → Type 0
IsZone naive = Unit
IsZone (east n) = n < 86400
IsZone (west n) = n < 86400

-- A datetime that Python accepts.
abbrev pub IsValue : Value → Type 0
IsValue v = IsDateTime v.fields × IsDate v.fields × IsZone v.zone

-- Microseconds in UTC, from one day before those of `micros` on.
abbrev instant_of : Zone → DateTime → ℕ
instant_of naive t = micros t + day_micros
instant_of (east n) t = micros t + day_micros - n * 1000000
instant_of (west n) t = micros t + day_micros + n * 1000000

abbrev pub instant : Value → ℕ
instant v = instant_of v.zone v.fields

-- The datetime in UTC of an instant; none for the instants before year 1 and after year 9999.
abbrev pub Converts : ℕ → Option DateTime → Type 0
Converts at none = (at < 2 * day_micros) ⊎ ((days_before_year 10000 + 2) * day_micros ≤ at)
Converts at (some u) =
    IsDateTime u
    × IsDate u
    × (micros u + day_micros ≡ at)
    × (2 * day_micros ≤ at)
    × (at < (days_before_year 10000 + 2) * day_micros)

at_second-Converts :
    (n s at : ℕ) (t d : DateTime)
    → IsDateTime t
    → DayOf n t d
    → s < 86400
    → (n * 86400 + s) * 1000000 + t.microsecond + day_micros ≡ at
    → Converts at (some (at_second s d))
at_second-Converts n s at t d ok near h e =
    let fits = near.fits in
    let same = near.same in
    let ordinal = near.ordinal in
    let length = near.date.4 in
    let most = days_in_month_range d.year d.month in
    let day : d.day ≤ 31 = omega arith in
    let range = to_ordinal_range (at_second s d) near.date fits in
    (
      (fits, near.date.2, day, omega arith, omega arith, omega arith, omega arith),
      near.date,
      omega arith,
      omega arith,
      omega arith,
    )

today : (t : DateTime) → IsDateTime t → IsDate t → DayOf (to_ordinal t) t t
today t ok date = record { date = date; fits = ok.0; same = refl; ordinal = refl }

sooner-Converts :
    (n at : ℕ) (t : DateTime)
    → IsDateTime t
    → IsDate t
    → n < 86400
    → micros t + day_micros - n * 1000000 ≡ at
    → Converts at (sooner n t)
sooner-Converts n at t ok date h e = elim (Bool-cases (leb n (second_of t))) [
  | inl within ↦
      let less : n ≤ second_of t = ground arith in
      rw within (
        at_second-Converts (to_ordinal t) (second_of t - n) at t t ok (today t ok date)
          (omega arith) (omega arith))
  | inr beyond ↦
      let more : second_of t < n = ground arith in
      elim (Option-cases (previous_day t)) [
        | inl never ↦
            let first = previous_day-none t date never in rw (beyond, never) (inl (omega arith))
        | inr (d, found) ↦
            let near = previous_day-DayOf t d ok date found in
            let range = to_ordinal_range t date ok.0 in
            rw (beyond, found)
              (at_second-Converts (to_ordinal t - 1) (second_of t + 86400 - n) at t d ok near
                (omega arith) (omega arith))
      ]
]

later-Converts :
    (n at : ℕ) (t : DateTime)
    → IsDateTime t
    → IsDate t
    → n < 86400
    → micros t + day_micros + n * 1000000 ≡ at
    → Converts at (later n t)
later-Converts n at t ok date h e = elim (Bool-cases (ltb (second_of t + n) 86400)) [
  | inl within ↦
      let less : second_of t + n < 86400 = ground arith in
      rw within (
        at_second-Converts (to_ordinal t) (second_of t + n) at t t ok (today t ok date) less
          (omega arith))
  | inr beyond ↦
      let more : 86400 ≤ second_of t + n = ground arith in
      elim (Option-cases (next_day t)) [
        | inl never ↦
            let last = next_day-none t ok date never in rw (beyond, never) (inr (omega arith))
        | inr (d, found) ↦
            let near = next_day-DayOf t d ok date found in
            rw (beyond, found)
              (at_second-Converts (to_ordinal t + 1) (second_of t + n - 86400) at t d ok near
                (omega arith) (omega arith))
      ]
]

zone-Converts :
    (z : Zone) (t : DateTime)
    → IsDateTime t
    → IsDate t
    → IsZone z
    → Converts (instant_of z t) (as_utc z t)
unfolding as_utc
zone-Converts naive t ok date h =
    let range = to_ordinal_range t date ok.0 in (ok, date, refl, omega arith, omega arith)
zone-Converts (east n) t ok date h = sooner-Converts n _ t ok date h refl
zone-Converts (west n) t ok date h = later-Converts n _ t ok date h refl

pub as_utc-Converts : (v : Value) → IsValue v → Converts (instant v) (as_utc v.zone v.fields)
as_utc-Converts v (ok, date, h) = zone-Converts v.zone v.fields ok date h

-- The validation of run_at answers the datetime in UTC of the same instant when it has one between
-- the years 1 and 9999, and raises an OverflowError exactly when it has none, whatever the offset
-- is.
pub normalize_run_at_lem :
    (v : Value)
    → IsValue v
    → (o : Option DateTime) × (normalize_run_at (some v) ≡ Option.map some o)
      × Converts (instant v) o
normalize_run_at_lem v (ok, date, h) =
    (as_utc v.zone v.fields, refl, as_utc-Converts v (ok, date, h))

-- The text of a value is the one of its datetime in UTC.
written :
    (v : Value) (a : List ℕ)
    → IsValue v
    → to_db_time v ≡ some a
    → (u : DateTime) × (isoformat u ≡ a)
      × IsDateTime u
      × IsDate u
      × (micros u + day_micros ≡ instant v)
unfolding to_db_time
written v a (ok, date, h) e = elim (Option-cases (as_utc v.zone v.fields)) [
  | inl never ↦
      absurd (let r : ◌≡◌ {A = Option (List ℕ)} none (some a) = rw (never, to_db_time) at e in cc)
  | inr (u, found) ↦
      let (ok', date', same, after, before) =
        rw found at (zone-Converts v.zone v.fields ok date h) in
      (u, some_inj (rw (found, to_db_time) at e), ok', date', same)
]

-- The texts that two datetimes are stored as, whether naive or of any offset below a day, compare,
-- character by character, as their instants in UTC do, also where only one of them has a fraction
-- of a second: what SQL compares as text is compared in time, across months and leap years.
pub text_before-to_db_time :
    (s t : Value) (a b : List ℕ)
    → IsValue s
    → IsValue t
    → to_db_time s ≡ some a
    → to_db_time t ≡ some b
    → text_before a b ≡ ltb (instant s) (instant t)
text_before-to_db_time s t a b hs ht es et =
    let (u, text_u, ok_u, date_u, same_u) = written s a hs es in
    let (v, text_v, ok_v, date_v, same_v) = written t b ht et in
    subst (λ x. text_before x b ≡ ltb (instant s) (instant t)) text_u
      (subst (λ x. text_before (isoformat u) x ≡ ltb (instant s) (instant t)) text_v
        (text_before-isoformat u v ok_u ok_v date_u date_v ∙ ground arith))

-- The text that a datetime is stored as, whether naive or of any offset below a day, is read back
-- as a datetime of the calendar in UTC of the same instant, to the microsecond.
pub parse_db_time-to_db_time :
    (v : Value) (a : List ℕ)
    → IsValue v
    → to_db_time v ≡ some a
    → (u : DateTime) × (parse_db_time (some a) ≡ some u)
      × IsDate u
      × (micros u + day_micros ≡ instant v)
parse_db_time-to_db_time v a h e =
    let (u, text, ok, date, same) = written v a h e in
    (
      u,
      subst (λ x. parse_db_time (some x) ≡ some u) text (parse_db_time-isoformat u ok),
      date,
      same,
    )
