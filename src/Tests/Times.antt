-- ===== src/Tests/Times.antt =====
-- Times with an offset, of which one falls on the day before in UTC, and one has no date in UTC.
use mathlib.Core.Option
use digitalocean.Base.{◌+◌, ◌≡◌, refl, Option, none, some, ltb, arith}
use digitalocean.DbTime.{DateTime, isoformat, parse_db_time}
use digitalocean.DbTime.Calendar.{is_leap, days_in_month, micros, IsDate}
use digitalocean.DbTime.Order.{text_before}
use digitalocean.DbTime.Zone.{
  Value, naive, east, previous_day, as_utc, to_db_time, normalize_run_at,
}
use digitalocean.DbTime.Zone.Instants.{
  IsValue, instant, Converts, day_micros, normalize_run_at_lem, text_before-to_db_time,
  parse_db_time-to_db_time,
}

-- 2024-03-01T00:30:00+01:00, which is 2024-02-29T23:30:00 in UTC, and half a second after it.
abbrev midnight : DateTime
midnight = record {
  year = 2024;
  month = 3;
  day = 1;
  hour = 0;
  minute = 30;
  second = 0;
  microsecond = 0;
}

abbrev in_berlin : Value
in_berlin = record { fields = midnight; zone = east 3600 }

abbrev in_utc : DateTime
in_utc = record midnight { month = 2; day = 29; hour = 23 }

abbrev half_past : Value
half_past = record { fields = record in_utc { microsecond = 500000 }; zone = naive }

abbrev first_day : DateTime
first_day = record midnight { year = 1; month = 1 }

abbrev too_early : Value
too_early = record { fields = first_day; zone = east 3600 }

in_berlin_fits : IsValue in_berlin
unfolding days_in_month is_leap
in_berlin_fits = (
  (omega arith, omega arith, omega arith, omega arith, omega arith, omega arith, omega arith),
  (omega arith, omega arith, omega arith, omega arith, omega arith),
  omega arith,
)

half_past_fits : IsValue half_past
unfolding days_in_month is_leap
half_past_fits = (
  (omega arith, omega arith, omega arith, omega arith, omega arith, omega arith, omega arith),
  (omega arith, omega arith, omega arith, omega arith, omega arith),
  tt,
)

too_early_fits : IsValue too_early
unfolding days_in_month is_leap
too_early_fits = (
  (omega arith, omega arith, omega arith, omega arith, omega arith, omega arith, omega arith),
  (omega arith, omega arith, omega arith, omega arith, omega arith),
  omega arith,
)

berlin_text : to_db_time in_berlin ≡ some (isoformat in_utc)
unfolding to_db_time as_utc previous_day days_in_month is_leap
berlin_text = refl

half_past_text : to_db_time half_past ≡ some (isoformat half_past.fields)
unfolding to_db_time as_utc
half_past_text = refl

-- There is no date in UTC.
overflows : normalize_run_at (some too_early) ≡ none
unfolding as_utc previous_day
overflows = refl

normalize_run_at_lem_example :
    (o : Option DateTime) × (normalize_run_at (some too_early) ≡ Option.map some o)
    × Converts (instant too_early) o
normalize_run_at_lem_example = normalize_run_at_lem too_early too_early_fits

text_before-to_db_time_example :
    text_before (isoformat in_utc) (isoformat half_past.fields)
    ≡ ltb (instant in_berlin) (instant half_past)
text_before-to_db_time_example =
    text_before-to_db_time in_berlin half_past (isoformat in_utc) (isoformat half_past.fields)
      in_berlin_fits half_past_fits berlin_text half_past_text

parse_db_time-to_db_time_example :
    (u : DateTime) × (parse_db_time (some (isoformat in_utc)) ≡ some u)
    × IsDate u
    × (micros u + day_micros ≡ instant in_berlin)
parse_db_time-to_db_time_example =
    parse_db_time-to_db_time in_berlin (isoformat in_utc) in_berlin_fits berlin_text
