-- ===== src/DbTime/RoundTrip.antt =====
-- What is written to a column of times is read back.
use digitalocean.Base.{
  ℕ, ◌+◌, ◌*◌, ◌/◌, ◌%◌, ◌<◌, ◌≡◌, refl, some, List, [], ◌==◌, arith, Bool-cases, inl, inr, ap,
}
use digitalocean.DbTime.{
  DateTime, IsDateTime, two, fraction, utc, clock, isoformat, read_two, read_six, read_fraction,
  read_clock, read_time, parse_db_time,
}

read_two-two : (n : ℕ) (rest : List ℕ) → n < 100 → read_two (two n rest) ≡ some (n, rest)
unfolding read_two
read_two-two n rest h = ground arith

read_six-digits :
    (n : ℕ) (rest : List ℕ)
    → n < 1000000
    → read_six (two (n / 10000) (two (n / 100 % 100) (two (n % 100) rest))) ≡ some (n, rest)
unfolding read_six
read_six-digits n rest h =
    let parts : n / 10000 * 10000 + (n / 100 % 100 * 100 + n % 100) ≡ n = omega arith in
    rw (read_two-two (n / 10000) (two (n / 100 % 100) (two (n % 100) rest)) (omega arith)) (
      rw (read_two-two (n / 100 % 100) (two (n % 100) rest) (omega arith))
        (rw (read_two-two (n % 100) rest (omega arith)) (ap (λ m. some (m, rest)) parts)))

read_fraction-fraction : (n : ℕ) → n < 1000000 → read_fraction (fraction n utc) ≡ some (n, utc)
unfolding read_fraction
read_fraction-fraction n h = elim (Bool-cases (n == 0)) [
  | inl zero_us ↦ let same : n ≡ 0 = ground arith in rw same refl
  | inr some_us ↦ rw some_us (read_six-digits n utc h)
]

read_clock-clock :
    (t : DateTime) → IsDateTime t → read_clock t.year t.month t.day (clock t) ≡ some (t, [])
unfolding read_clock
read_clock-clock t ok = rw (read_two-two t.hour _ (omega arith)) (
    rw (read_two-two t.minute _ (omega arith)) (
      rw (read_two-two t.second _ (omega arith))
        (rw (read_fraction-fraction t.microsecond (omega arith)) refl)))

-- A datetime in UTC that is written to a column of times is read back as the same datetime, with or
-- without a fraction of a second.
pub parse_db_time-isoformat :
    (t : DateTime) → IsDateTime t → parse_db_time (some (isoformat t)) ≡ some t
unfolding parse_db_time isoformat read_time
parse_db_time-isoformat t ok =
    let years : t.year / 100 * 100 + t.year % 100 ≡ t.year = omega arith in
    rw (read_two-two (t.year / 100) _ (omega arith)) (
      rw (read_two-two (t.year % 100) _ (omega arith)) (
        rw (read_two-two t.month _ (omega arith))
          (rw (read_two-two t.day _ (omega arith)) (rw years (rw (read_clock-clock t ok) refl)))))
