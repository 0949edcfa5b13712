-- ===== src/DbTime/Zone.antt =====
-- Datetimes with and without an offset, and `astimezone(timezone.utc)`: the offset is less than a
-- day, so that the date in UTC is the same, the one before or the one after. There is no date
-- before 0001-01-01 and none after 9999-12-31: Python raises OverflowError.
pub mod Steps
pub mod Instants
use mathlib.Core.Option
use digitalocean.Base.{
  ℕ, ◌+◌, ◌-◌, ◌*◌, ◌/◌, ◌%◌, ◌≤◌, ◌<◌, Bool, true, false, Option, none, some, List, ◌==◌, ltb, leb,
  if◌then◌else◌,
}
use digitalocean.DbTime.{DateTime, isoformat}
use digitalocean.DbTime.Calendar.{days_in_month}

-- `tzinfo`: None, or an offset in seconds to the east or to the west.
pub data Zone : Type 0 where
  naive : Zone
  east : ℕ → Zone
  west : ℕ → Zone

-- A `datetime` as a request has it.
pub record Value : Type 0 where
  pub fields : DateTime
  pub zone : Zone

unfoldable pub next_day : DateTime → Option DateTime
next_day t =
    if ltb t.day (days_in_month t.year t.month)
    then some (record t { day = t.day + 1 })
    else if ltb t.month 12
    then some (record t { month = t.month + 1; day = 1 })
    else if ltb t.year 9999
    then some (record t { year = t.year + 1; month = 1; day = 1 })
    else none

unfoldable pub previous_day : DateTime → Option DateTime
previous_day t =
    if ltb 1 t.day
    then some (record t { day = t.day - 1 })
    else if ltb 1 t.month
    then some (record t { month = t.month - 1; day = days_in_month t.year (t.month - 1) })
    else if ltb 1 t.year
    then some (record t { year = t.year - 1; month = 12; day = 31 })
    else none

-- The seconds since midnight, and the time of day of as many seconds.
abbrev pub second_of : DateTime → ℕ
second_of t = (t.hour * 60 + t.minute) * 60 + t.second

abbrev pub at_second : ℕ → DateTime → DateTime
at_second n t = record t { hour = n / 3600; minute = n / 60 % 60; second = n % 60 }

abbrev pub sooner : ℕ → DateTime → Option DateTime
sooner offset t =
    if leb offset (second_of t)
    then some (at_second (second_of t - offset) t)
    else Option.map (at_second (second_of t + 86400 - offset)) (previous_day t)

abbrev pub later : ℕ → DateTime → Option DateTime
later offset t =
    if ltb (second_of t + offset) 86400
    then some (at_second (second_of t + offset) t)
    else Option.map (at_second (second_of t + offset - 86400)) (next_day t)

-- `value.replace(tzinfo=timezone.utc)` of a naive value, `value.astimezone(timezone.utc)` of others.
unfoldable pub as_utc : Zone → DateTime → Option DateTime
as_utc naive t = some t
as_utc (east n) t = sooner n t
as_utc (west n) t = later n t

-- `none` is an OverflowError.
unfoldable pub to_db_time : Value → Option (List ℕ)
to_db_time v = Option.map isoformat (as_utc v.zone v.fields)

-- `normalize_run_at` of app/models.py: the validated field is in UTC, or missing.
abbrev pub normalize_run_at : Option Value → Option (Option DateTime)
normalize_run_at none = some none
normalize_run_at (some v) = Option.map some (as_utc v.zone v.fields)
