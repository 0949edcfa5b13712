-- ===== src/Handler/Squares.antt =====
-- The action `compute`.
use digitalocean.Base.{ℕ, zero, suc, ◌+◌, ◌*◌, ◌≡◌, refl, pos, arith}
use digitalocean.Models.{num, str, end, field, obj}
use digitalocean.Worker.{returned}
use digitalocean.Handler.{Python, is_text, get, to_int, sum_of_squares, attempt_field, execute_job}

squares : (m : ℕ) → 6 * sum_of_squares (suc m) ≡ m * (m + 1) * (2 * m + 1)
unfolding sum_of_squares
squares zero = refl
squares (suc m) = let rest = squares m in grind arith

-- For a positive n the action compute answers at once with n and the sum of the squares below n,
-- and six times that sum is (n - 1) * n * (2 * (n - 1) + 1).
pub execute_job-compute :
    (python : Python) (m attempt_no : ℕ)
    → (execute_job python
          (field "action" (str "compute") (field "n" (num (pos (suc m))) end))
          attempt_no
        ≡ (
          0,
          returned (
              obj (
                field "n" (num (pos (suc m))) (
                  field "sum_of_squares"
                    (num (pos (sum_of_squares (suc m))))
                    (attempt_field attempt_no)))),
        ))
      × (6 * sum_of_squares (suc m) ≡ m * (m + 1) * (2 * m + 1))
unfolding execute_job get is_text to_int
execute_job-compute python m attempt_no = (refl, squares m)
