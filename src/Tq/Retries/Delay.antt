-- ===== src/Tq/Retries/Delay.antt =====
-- The bounds of the retry counter's delays.
use git_lfs.Prelude.{
  Bool-cases, zero, suc, ℕ, ◌+◌, ◌-◌, ◌*◌, ◌%◌, ◌^◌, ◌≤◌, ◌<◌, ◌≡◌, sym, ap, ◌∙◌, ltb, leb, inl,
  inr, ◌⊎◌, eqb, ◌||◌, if◌then◌else◌, Text, arith,
}
use native.Mathlib.Omega.{pow_step}
use git_lfs.Tq.Retries.{retry_delay, ready_time, add_duration, RetryCounter, count_for}

-- The delays double, in milliseconds, up to the greatest delay.
unfoldable pub doubling : (most count : ℕ) → ℕ
doubling most count =
    let delay = 250 * 2 ^ (count - 1) in if ltb (1000 * most) delay then 1000 * most else delay

-- The two wrap-arounds leave a multiple of 2^58.
scaled_shift : (k : ℕ) → (2 ^ 57 * k) % 2 ^ 64 ≡ 2 ^ 57 * (k % 128)
scaled_shift k = omega arith

scaled_product : (r : ℕ) → (250 * (2 ^ 57 * r)) % 2 ^ 64 ≡ 2 ^ 58 * ((125 * r) % 64)
scaled_product r = omega arith

plus_zero_lem : (n : ℕ) → 0 + n ≡ n
plus_zero_lem n = omega arith

zero_plus_lem : (n : ℕ) → n + 0 ≡ n
zero_plus_lem n = omega arith

suc_plus_lem : (a b : ℕ) → suc a + b ≡ suc (a + b)
suc_plus_lem a b = omega arith

plus_suc_lem : (a b : ℕ) → a + suc b ≡ suc (a + b)
plus_suc_lem a b = omega arith

one_times_lem : (n : ℕ) → n ≡ 2 ^ 0 * n
one_times_lem n = omega arith

difference_lem : (n m : ℕ) → n ≤ m → n + (m - n) ≡ m
difference_lem n m h = omega arith

pow_add : (a b : ℕ) → 2 ^ (a + b) ≡ 2 ^ a * 2 ^ b
pow_add zero b = ap (λ n. 2 ^ n) (plus_zero_lem b) ∙ one_times_lem (2 ^ b)
pow_add (suc a) b =
    grind (arith, pow_add a b, ap (λ n. 2 ^ n) (suc_plus_lem a b), pow_step 2 (a + b), pow_step 2 a)

pow_le : (n d : ℕ) → 2 ^ n ≤ 2 ^ (n + d)
pow_le n zero = omega (arith, ap (λ d. 2 ^ d) (zero_plus_lem n))
pow_le n (suc d) = omega (arith, pow_le n d, ap (λ m. 2 ^ m) (plus_suc_lem n d), pow_step 2 (n + d))

-- The computed delay is the true one, or 2^58 at least, or zero.
small_shift : (n : ℕ) → n ≤ 56 → (250 * (2 ^ n % 2 ^ 64)) % 2 ^ 64 ≡ 250 * 2 ^ n
small_shift n h = omega (arith, pow_le n (56 - n), ap (λ d. 2 ^ d) (difference_lem n 56 h))

large_shift :
    (k : ℕ) → (250 * (2 ^ (57 + k) % 2 ^ 64)) % 2 ^ 64 ≡ 2 ^ 58 * ((125 * (2 ^ k % 128)) % 64)
large_shift k = rw (pow_add 57 k) (rw (scaled_shift (2 ^ k)) (scaled_product (2 ^ k % 128)))

capped :
    (most delay true_delay : ℕ)
    → most < 2 ^ 48
    → 1 ≤ true_delay
    → (delay ≡ true_delay) ⊎ ((2 ^ 58 ≤ true_delay) × ((delay ≡ 0) ⊎ (2 ^ 58 ≤ delay)))
    → (if eqb delay 0 || ltb ((1000 * most) % 2 ^ 64) delay then (1000 * most) % 2 ^ 64 else delay)
      ≡ (if ltb (1000 * most) true_delay then 1000 * most else true_delay)
capped most delay true_delay h p = ground arith

delay_cases :
    (n : ℕ)
    → ((250 * (2 ^ n % 2 ^ 64)) % 2 ^ 64 ≡ 250 * 2 ^ n)
      ⊎ ((2 ^ 58 ≤ 250 * 2 ^ n)
          × (((250 * (2 ^ n % 2 ^ 64)) % 2 ^ 64 ≡ 0)
              ⊎ (2 ^ 58 ≤ (250 * (2 ^ n % 2 ^ 64)) % 2 ^ 64)))
delay_cases n = elim (Bool-cases (leb n 56)) [
  | inl small ↦ inl (small_shift n (ground arith))
  | inr large ↦ inr (
    omega (arith, pow_le 57 (n - 57), ap (λ m. 2 ^ m) (difference_lem 57 n (ground arith))),
    rw (sym (difference_lem 57 n (ground arith))) (rw (large_shift (n - 57)) (omega arith)),
  )
]

-- If the greatest delay is below 2^48 seconds, the wrap-around of the 64-bit shift and product
-- never shortens a delay: at every count from 1 it is 250 ms doubled count - 1 times, or the
-- greatest delay if that is less.
pub retry_delay-doubling :
    (most count : ℕ) → most < 2 ^ 48 → 1 ≤ count → retry_delay most count ≡ doubling most count
unfolding retry_delay doubling
retry_delay-doubling most count h p =
    capped most _ _ h
      (omega (arith, pow_le 0 (count - 1), ap (λ m. 2 ^ m) (plus_zero_lem (count - 1))))
      (delay_cases (count - 1))

doubling-le : (most count : ℕ) → doubling most count ≤ 1000 * most
unfolding doubling
doubling-le most count = ground arith

-- If the greatest delay is below 2^33 seconds, an object that was never retried is ready at the
-- zero time, and another when the delay of 250 ms, doubled with each retry after the first and cut
-- at the greatest delay, has passed from now: no later than the greatest delay.
pub ready_time-doubling :
    (now : ℕ) (r : RetryCounter) (oid : Text)
    → r.max_retry_delay < 2 ^ 33
    → ((count_for r oid ≡ 0) → ready_time now r oid ≡ 0)
      × ((1 ≤ count_for r oid)
          → (ready_time now r oid ≡ now + 1000000 * doubling r.max_retry_delay (count_for r oid))
            × (ready_time now r oid ≤ now + 1000000000 * r.max_retry_delay))
unfolding ready_time add_duration
ready_time-doubling now r oid h = (
  λ n. ground arith,
  λ n.
      let exact = retry_delay-doubling r.max_retry_delay (count_for r oid) (omega arith) n in
      let bound = doubling-le r.max_retry_delay (count_for r oid) in
      (ground (arith, exact, bound), ground (arith, exact, bound)),
)
