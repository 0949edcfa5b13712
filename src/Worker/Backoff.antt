-- ===== src/Worker/Backoff.antt =====
-- The delay before a retry.
use digitalocean.Base.{ℕ, suc, ◌-◌, ◌*◌, ◌^◌, ◌≤◌, ◌≡◌, min, arith}
use native.Mathlib.Nat.{pow-suc, one-le-pow}
use digitalocean.Models.{RuntimeConfig}
use digitalocean.Worker.{backoff_seconds}

doubled : (b e m : ℕ) → min (b * (e * 2)) m ≡ min (2 * min (b * e) m) m
doubled b e m = omega arith

above_base : (b e m : ℕ) → 1 ≤ e → b ≤ m → b ≤ min (b * e) m
above_base b e m h k = let product : b ≤ b * e = grind arith in omega arith

-- When the base is at most the cap, the delay of the first attempt is the base, the delay of each
-- later attempt is twice the one before it, cut at the cap, and every delay lies between the base
-- and the cap.
pub backoff_seconds_doubles :
    (c : RuntimeConfig) (n : ℕ)
    → c.backoff_base_seconds ≤ c.backoff_max_seconds
    → (backoff_seconds c 1 ≡ c.backoff_base_seconds)
      × (backoff_seconds c (suc (suc n))
          ≡ min (2 * backoff_seconds c (suc n)) c.backoff_max_seconds)
      × (c.backoff_base_seconds ≤ backoff_seconds c (suc n))
      × (backoff_seconds c (suc n) ≤ c.backoff_max_seconds)
unfolding backoff_seconds
backoff_seconds_doubles c n h =
    let b = c.backoff_base_seconds in
    let m = c.backoff_max_seconds in
    let less : suc n - 1 ≡ n = omega arith in
    let less' : suc (suc n) - 1 ≡ suc n = omega arith in
    (
      omega arith,
      rw (less, less', pow-suc) (doubled b (2 ^ n) m),
      rw less (above_base b (2 ^ n) m (one-le-pow n 2 (omega arith)) h),
      omega arith,
    )
