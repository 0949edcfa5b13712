-- ===== src/Scheduling.antt =====
-- app/scheduling.py. `croniter(expression, base).get_next(datetime)` is an argument: the time that it
-- answers, or the exception that it raises.
use digitalocean.Base.{ℕ, ◌+◌, ◌≡◌, refl, Option, none, some, Option-cases, inl, inr}
use digitalocean.DbTime.{DateTime}
use digitalocean.DbTime.Calendar.{micros}
use digitalocean.DbTime.Zone.{Value, as_utc}
use digitalocean.DbTime.Zone.Instants.{IsValue, instant, day_micros, as_utc-Converts}
use digitalocean.Rows.Stored.{IsTime}

-- The exceptions that the `except` clause tells apart.
pub data Error : Type 0 where
  bad_cron value_error key_error other_error : Error

pub data Answer : Type 0 where
  gives : Value → Answer
  throws : Error → Answer

abbrev pub Croniter : Type 0
Croniter = (expression : ℕ) → (base : DateTime) → Answer

-- How `next_cron_run` ends: `invalid` is InvalidCronExpressionError, `uncaught` another exception,
-- as the OverflowError of a conversion to UTC.
pub data NextRun : Type 0 where
  runs_at : DateTime → NextRun
  invalid uncaught : NextRun

abbrev pub in_utc : Option DateTime → NextRun
in_utc none = uncaught
in_utc (some t) = runs_at t

abbrev pub outcome : Answer → NextRun
outcome (gives v) = in_utc (as_utc v.zone v.fields)
outcome (throws bad_cron) = invalid
outcome (throws value_error) = invalid
outcome (throws key_error) = invalid
outcome (throws other_error) = uncaught

abbrev pub from_base : Croniter → ℕ → Option DateTime → NextRun
from_base croniter expression none = uncaught
from_base croniter expression (some base) = outcome (croniter expression base)

unfoldable pub next_cron_run : Croniter → (expression : ℕ) → (after : Value) → NextRun
next_cron_run croniter expression after =
    from_base croniter expression (as_utc after.zone after.fields)

-- What an answer says of croniter.
abbrev pub Follows : Croniter → ℕ → Value → NextRun → Type 0
Follows croniter expression after (runs_at t) =
    (base : DateTime) × (micros base + day_micros ≡ instant after)
    × ((v : Value) × (croniter expression base ≡ gives v)
        × IsTime t
        × (micros t + day_micros ≡ instant v))
Follows croniter expression after invalid =
    (base : DateTime) × (micros base + day_micros ≡ instant after)
    × ((e : Error) × (croniter expression base ≡ throws e))
Follows croniter expression after uncaught = Unit

outcome-Follows :
    (croniter : Croniter) (expression : ℕ) (after : Value) (base : DateTime) (a : Answer)
    → micros base + day_micros ≡ instant after
    → croniter expression base ≡ a
    → ((v : Value) → a ≡ gives v → IsValue v)
    → Follows croniter expression after (outcome a)
outcome-Follows croniter expression after base (gives v) same e ok =
    elim (Option-cases (as_utc v.zone v.fields)) [
      | inl never ↦ rw (never, in_utc) tt
      | inr (t, found) ↦
          let (fits, date, at, low, high) = rw found at (as_utc-Converts v (ok v refl)) in
          rw (found, in_utc) (base, same, (v, e, (fits, date), at))
    ]
outcome-Follows croniter expression after base (throws bad_cron) same e ok =
    (base, same, (bad_cron, e))
outcome-Follows croniter expression after base (throws value_error) same e ok =
    (base, same, (value_error, e))
outcome-Follows croniter expression after base (throws key_error) same e ok =
    (base, same, (key_error, e))
outcome-Follows croniter expression after base (throws other_error) same e ok = tt

-- croniter is asked at the instant of the argument, and its time is answered in UTC.
pub next_cron_run-Follows :
    (croniter : Croniter) (expression : ℕ) (after : Value)
    → IsValue after
    → ((base : DateTime) (v : Value) → croniter expression base ≡ gives v → IsValue v)
    → Follows croniter expression after (next_cron_run croniter expression after)
unfolding next_cron_run
next_cron_run-Follows croniter expression after ok answers =
    elim (Option-cases (as_utc after.zone after.fields)) [
      | inl never ↦ rw (never, from_base) tt
      | inr (base, found) ↦
          let (fits, date, at, low, high) = rw found at (as_utc-Converts after ok) in
          rw (found, from_base)
            (outcome-Follows croniter expression after base (croniter expression base) at refl
              (answers base))
    ]
