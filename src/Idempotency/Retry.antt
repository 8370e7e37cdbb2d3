-- ===== src/Idempotency/Retry.antt =====
-- How long a delivery waits that meets a held key.
use jubs.Common.{ℕ, zero, suc, ◌+◌, ◌-◌, ◌*◌, ◌^◌, ◌≤◌, ◌≡◌, min, arith}
use native.Mathlib.Nat.{pow-suc}
use jubs.Idempotency.{held_retry_floor_ms, held_retry_ms, held_retry_delay_ms}

pow-pos : (n : ℕ) → 1 ≤ 2 ^ n
pow-pos zero = omega arith
pow-pos (suc n) = omega (arith, pow-suc 2 n, pow-pos n)

pow_mono : (m k : ℕ) → 2 ^ m ≤ 2 ^ (m + k)
pow_mono zero k = pow-pos _
pow_mono (suc m) k =
    let shifted : suc m + k ≡ suc (m + k) = omega arith in
    rw (shifted) (omega (arith, pow-suc 2 m, pow-suc 2 (m + k), pow_mono m k))

-- The wait is between a tenth of a second and a second, it never shrinks as deliveries are counted,
-- and it doubles from one delivery to the next until it meets a second.
pub held_retry_bounds :
    (n k : ℕ)
    → (held_retry_floor_ms ≤ held_retry_delay_ms n)
      × (held_retry_delay_ms n ≤ held_retry_ms)
      × (held_retry_delay_ms n ≤ held_retry_delay_ms (n + k))
      × (held_retry_delay_ms (n + 2) ≡ min (2 * held_retry_delay_ms (n + 1)) held_retry_ms)
unfolding held_retry_delay_ms
held_retry_bounds zero k =
    let doubled : 0 + 2 - 1 ≡ 1 = omega arith in
    (omega arith, omega arith, omega (arith, pow-pos (0 + k - 1)), omega arith)
held_retry_bounds (suc n) k =
    let first : suc n - 1 ≡ n = omega arith in
    let later : suc n + k - 1 ≡ n + k = omega arith in
    let next : suc n + 1 - 1 ≡ suc n = omega arith in
    let after_next : suc n + 2 - 1 ≡ suc (suc n) = omega arith in
    rw (first, later, next, after_next)
      (
        omega (arith, pow-pos n),
        omega arith,
        omega (arith, pow_mono n k),
        omega (arith, pow-suc 2 (suc n)),
      )
