-- ===== src/Handler.antt =====
-- app/handler.py: the built-in job handler, on payloads that are JSON objects. The result is an
-- `Outcome` and the microseconds that the handler slept before it.
pub mod Squares
use Prim.Native.Nat.{Ordering}
use Prim.Native.String.{compare}
use digitalocean.Base.{
  ℕ, zero, suc, ◌+◌, ◌*◌, ◌/◌, ℤ, pos, negsuc, pos_part, neg_part, ltb_ℤ, String, Bool, true, false,
  not, Option, none, some, or_else, if◌then◌else◌,
}
use digitalocean.Models.{Json, JsonFields, null, bool, num, float, str, arr, obj, end, field}
use digitalocean.Worker.{Outcome, returned, raised}

-- What Python makes of a text that is read as a number, of a value that is no number, and of a
-- value that is put into a text. A float is given in millionths.
pub record Python : Type 0 where
  pub parse_int : String → Option ℤ
  pub parse_float : String → Option ℤ
  pub conversion_error : Json → String
  pub failed_on_attempt : ℕ → String
  pub unsupported_action : Json → String

unfoldable pub is_text : String → Json → Bool
is_text t (str s) = elim (compare s t) [ Ordering.eq ↦ true | _ ↦ false ]
is_text t _ = false

-- `payload.get(key)`
unfoldable pub get : String → JsonFields → Option Json
get key end = none
get key (field name value rest) = if is_text key (str name) then some value else get key rest

abbrev pub negated : ℕ → ℤ
negated zero = pos 0
negated (suc n) = negsuc n

-- `int(x)` cuts off towards 0.
unfoldable pub to_int : Python → Json → Option ℤ
to_int python (num n) = some n
to_int python (float (pos n)) = some (pos (n / 1000000))
to_int python (float (negsuc n)) = some (negated (suc n / 1000000))
to_int python (bool true) = some (pos 1)
to_int python (bool false) = some (pos 0)
to_int python (str s) = python.parse_int s
to_int python _ = none

-- `float(x)`, in millionths.
unfoldable pub to_float : Python → Json → Option ℤ
to_float python (num (pos n)) = some (pos (n * 1000000))
to_float python (num (negsuc n)) = some (negated (suc n * 1000000))
to_float python (float x) = some x
to_float python (bool true) = some (pos 1000000)
to_float python (bool false) = some (pos 0)
to_float python (str s) = python.parse_float s
to_float python _ = none

-- `sum(i * i for i in range(k))`
unfoldable pub sum_of_squares : ℕ → ℕ
sum_of_squares zero = 0
sum_of_squares (suc i) = sum_of_squares i + i * i

abbrev pub attempt_field : ℕ → JsonFields
attempt_field attempt_no = field "attempt" (num (pos attempt_no)) end

-- The actions, after their number was read.
abbrev pub fail_job : Python → (attempt_no : ℕ) → Json → ℕ × Outcome
fail_job python attempt_no failures = elim (to_int python failures) [
  | none ↦ (0, raised (python.conversion_error failures))
  | some n ↦
      if ltb_ℤ n (pos attempt_no)
      then (0, returned (obj (field "recovered" (bool true) (attempt_field attempt_no))))
      else (0, raised (python.failed_on_attempt attempt_no))
]

abbrev pub sleep_job : Python → (attempt_no : ℕ) → Json → ℕ × Outcome
sleep_job python attempt_no seconds = elim (to_float python seconds) [
  | none ↦ (0, raised (python.conversion_error seconds))
  | some t ↦
      (pos_part t, returned (obj (field "slept_seconds" (float t) (attempt_field attempt_no))))
]

abbrev pub compute_job : Python → (attempt_no : ℕ) → Json → ℕ × Outcome
compute_job python attempt_no limit = elim (to_int python limit) [
  | none ↦ (0, raised (python.conversion_error limit))
  | some n ↦ (
    0,
    returned (
        obj (
          field "n" (num n) (
            field "sum_of_squares" (num (pos (sum_of_squares (pos_part n))))
              (attempt_field attempt_no)))),
  )
]

unfoldable pub execute_job : Python → JsonFields → (attempt_no : ℕ) → ℕ × Outcome
execute_job python payload attempt_no =
    let action = or_else (get "action" payload) (str "echo") in
    if is_text "echo" action
    then (0, returned (obj (field "echo" (obj payload) (attempt_field attempt_no))))
    else (if is_text "fail" action
        then fail_job python attempt_no
            (or_else (get "failures_before_success" payload) (num (pos 0)))
        else (if is_text "sleep" action
            then sleep_job python attempt_no (or_else (get "seconds" payload) (num (pos 1)))
            else (if is_text "compute" action
                then compute_job python attempt_no (or_else (get "n" payload) (num (pos 1000)))
                else (0, raised (python.unsupported_action action)))))
