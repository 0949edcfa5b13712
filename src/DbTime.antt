-- ===== src/DbTime.antt =====
-- `to_db_time` and `parse_db_time` of app/repository.py: a time in the tables is the text that
-- `datetime.isoformat` writes in UTC, as its characters' codes.
pub mod Calendar
pub mod Days
pub mod Zone
pub mod Order
pub mod RoundTrip
use digitalocean.Base.{
  ℕ, zero, ◌+◌, ◌-◌, ◌*◌, ◌/◌, ◌%◌, ◌≤◌, ◌<◌, Bool, true, false, ◌&&◌, Option, none, some, List, [],
  ◌∷◌, ◌++◌, ◌==◌, ltb, leb, if◌then◌else◌,
}

-- A datetime in UTC.
pub record DateTime : Type 0 where
  pub year : ℕ
  pub month : ℕ
  pub day : ℕ
  pub hour : ℕ
  pub minute : ℕ
  pub second : ℕ
  pub microsecond : ℕ

abbrev pub IsDateTime : DateTime → Type 0
IsDateTime t =
    (t.year ≤ 9999)
    × (t.month ≤ 12)
    × (t.day ≤ 31)
    × (t.hour < 24)
    × (t.minute < 60)
    × (t.second < 60)
    × (t.microsecond < 1000000)

-- Two digits.
abbrev pub two : ℕ → List ℕ → List ℕ
two n rest = (48 + n / 10) ∷ (48 + n % 10) ∷ rest

-- The fraction is left out where it is zero.
abbrev pub fraction : ℕ → List ℕ → List ℕ
fraction n rest =
    if n == 0 then rest else 46 ∷ two (n / 10000) (two (n / 100 % 100) (two (n % 100) rest))

-- "+00:00"
abbrev pub utc : List ℕ
utc = 43 ∷ 48 ∷ 48 ∷ 58 ∷ 48 ∷ 48 ∷ []

-- "hour:minute:second", and what follows.
abbrev pub clock : DateTime → List ℕ
clock t = two t.hour (58 ∷ two t.minute (58 ∷ two t.second (fraction t.microsecond utc)))

-- `isoformat()` of a datetime in UTC.
unfoldable pub isoformat : DateTime → List ℕ
isoformat t =
    two (t.year / 100) (two (t.year % 100) (45 ∷ two t.month (45 ∷ two t.day (84 ∷ clock t))))

-- A reader takes a value from the front of a text.
abbrev pub Reader : Type 0 → Type 0
Reader A = List ℕ → Option (A × List ℕ)

abbrev pub continue : {A B : Type 0} → Option (A × List ℕ) → (A → Reader B) → Option (B × List ℕ)
continue none f = none
continue (some (a, rest)) f = f a rest

infixl 5 ◌>>=◌ ◌>>◌
abbrev pub ◌>>=◌ : {A B : Type 0} → Reader A → (A → Reader B) → Reader B
r >>= f = λ text. continue (r text) f

abbrev pub ◌>>◌ : {B : Type 0} → Reader (Unit {0}) → Reader B → Reader B
r >> s = r >>= λ _. s

abbrev pub pure : {A : Type 0} → A → Reader A
pure a text = some (a, text)

abbrev pub digit : ℕ → Option ℕ
digit c = if leb 48 c && leb c 57 then some (c - 48) else none

abbrev pub number : Option ℕ → Option ℕ → Reader ℕ
number (some a) (some b) rest = some (10 * a + b, rest)
number _ _ rest = none

-- Two digits.
unfoldable pub read_two : Reader ℕ
read_two (a ∷ b ∷ rest) = number (digit a) (digit b) rest
read_two _ = none

-- A given character.
abbrev pub skip : ℕ → Reader (Unit {0})
skip c [] = none
skip c (d ∷ rest) = if d == c then some (tt, rest) else none

abbrev pub skip_all : List ℕ → Reader (Unit {0})
skip_all [] text = some (tt, text)
skip_all (c ∷ cs) text = continue (skip c text) (λ _. skip_all cs)

unfoldable pub read_six : Reader ℕ
read_six = do a ← read_two; b ← read_two; c ← read_two; pure (a * 10000 + (b * 100 + c))

-- The fraction, or none.
unfoldable pub read_fraction : Reader ℕ
read_fraction [] = some (0, [])
read_fraction (c ∷ rest) = if c == 46 then read_six rest else some (0, c ∷ rest)

unfoldable pub read_clock : (year month day : ℕ) → Reader DateTime
read_clock y m d = do
  h ← read_two
  skip 58
  mi ← read_two
  skip 58
  s ← read_two
  us ← read_fraction
  skip_all utc
  pure
      (record { year = y; month = m; day = d; hour = h; minute = mi; second = s; microsecond = us })

unfoldable pub read_time : Reader DateTime
read_time = do
  c ← read_two
  y ← read_two
  skip 45
  m ← read_two
  skip 45
  d ← read_two
  skip 84
  read_clock (c * 100 + y) m d

-- The whole text was read.
abbrev pub whole : Option (DateTime × List ℕ) → Option DateTime
whole (some (t, [])) = some t
whole _ = none

-- `none` stands for NULL; a text that is none of `to_db_time` is not read here.
unfoldable pub parse_db_time : Option (List ℕ) → Option DateTime
parse_db_time none = none
parse_db_time (some text) = whole (read_time text)
