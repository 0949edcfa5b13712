-- ===== src/Worker/Pool/Slots.antt =====
-- Which slots the threads of a pool have.
use digitalocean.Base.{
  ℕ, zero, suc, ◌+◌, ◌-◌, ◌≡◌, refl, true, max, List, [], ◌∷◌, ◌++◌, length, arith, ap,
}
use digitalocean.Worker.Pool.{Thread, alive, new_threads, ensure_threads}

length-new_threads : (n first : ℕ) → length (new_threads n first) ≡ n
unfolding new_threads
length-new_threads zero first = refl
length-new_threads (suc n) first = omega (arith, length-new_threads n (first + 1))

length-append : (xs ys : List Thread) → length (xs ++ ys) ≡ length xs + length ys
length-append [] ys = omega arith
length-append (x ∷ xs) ys = omega (arith, length-append xs ys)

pub alive-new_threads : (n first : ℕ) → alive (new_threads n first) ≡ new_threads n first
unfolding new_threads
alive-new_threads zero first = refl
alive-new_threads (suc n) first =
    ap (λ ts. record { slot = first; is_alive = true } ∷ ts) (alive-new_threads n (first + 1))

new_threads-append :
    (n m first : ℕ) → new_threads n first ++ new_threads m (first + n) ≡ new_threads (n + m) first
unfolding new_threads
new_threads-append zero m first =
    let same : first + 0 ≡ first = omega arith in
    let all : 0 + m ≡ m = omega arith in rw (same, all) refl
new_threads-append (suc n) m first =
    let later : first + suc n ≡ (first + 1) + n = omega arith in
    let all : suc n + m ≡ suc (n + m) = omega arith in
    rw (later, all)
      (ap (λ ts. record { slot = first; is_alive = true } ∷ ts)
        (new_threads-append n m (first + 1)))

numbered :
    (desired n : ℕ) → ensure_threads desired (new_threads n 1) ≡ new_threads (max n desired) 1
unfolding ensure_threads
numbered desired n =
    let next : n + 1 ≡ 1 + n = omega arith in
    let total : n + (desired - n) ≡ max n desired = omega arith in
    rw (alive-new_threads n 1, length-new_threads n 1, next, ← total)
      (new_threads-append n (desired - n) 1)

-- `_ensure_threads_locked` leaves as many threads as are alive or as are desired, whichever is
-- more; and where the threads are alive and have the slots 1 to n, it leaves living threads with
-- the slots 1 to the larger of n and the desired number.
pub ensure_threads_lem :
    (desired n : ℕ) (threads : List Thread)
    → (length (ensure_threads desired threads) ≡ max (length (alive threads)) desired)
      × (ensure_threads desired (new_threads n 1) ≡ new_threads (max n desired) 1)
unfolding ensure_threads
ensure_threads_lem desired n threads =
    let current = length (alive threads) in
    let both = length-append (alive threads) (new_threads (desired - current) (current + 1)) in
    let new = length-new_threads (desired - current) (current + 1) in
    (omega arith, numbered desired n)
