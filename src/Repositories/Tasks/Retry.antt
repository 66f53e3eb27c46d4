-- ===== src/Repositories/Tasks/Retry.antt =====
-- repositories/tasks.py: `retry_delay_seconds`. A duration is a number of
-- a unit of which the base and the maximum are multiples; the products are exact, as those of floats
-- are while they have at most 53 bits, and for a power of two.
use native.Mathlib.Nat.{mul-le-mul_left, pow-le-pow_right}
use mini_ai_cloud.Prelude.{
  ℕ, suc, ◌+◌, ◌-◌, ◌*◌, ◌^◌, ◌≤◌, min, ◌≡◌, Bool, false, not, ltb, Result, ok, ◌>>◌, raise_if,
  arith,
}
use mini_ai_cloud.Prelude.Int.{ℤ, pos, negsuc, pos_part}
use mini_ai_cloud.Core.Enums.{RetryBackoff, exponential, linear, fixed}

pub data RetryError : Type 0 where
  low_retry_count low_base low_maximum : RetryError

abbrev is_positive : ℤ → Bool
is_positive (pos n) = ltb 0 n
is_positive (negsuc n) = false

abbrev pub delay : RetryBackoff → ℕ → ℕ → ℕ
delay fixed base count = base
delay linear base count = base * count
delay exponential base count = base * 2 ^ (count - 1)

unfoldable pub retry_delay_seconds : ℤ → ℤ → RetryBackoff → ℤ → Result RetryError ℕ
retry_delay_seconds retry_count maximum backoff base_seconds = do
  raise_if (not (is_positive retry_count)) low_retry_count
  raise_if (not (is_positive base_seconds)) low_base
  raise_if (not (is_positive maximum)) low_maximum
  ok (min (delay backoff (pos_part base_seconds) (pos_part retry_count)) (pos_part maximum))

delay-grows :
    (mode : RetryBackoff) (base n k : ℕ) → delay mode base (suc n) ≤ delay mode base (suc n + k)
delay-grows fixed base n k = omega arith
delay-grows linear base n k = mul-le-mul_left base (omega arith)
delay-grows exponential base n k =
    mul-le-mul_left base (pow-le-pow_right (omega arith) (omega arith))

delay_least : (mode : RetryBackoff) (base n : ℕ) → base ≤ delay mode base (suc n)
delay_least fixed base n = omega arith
delay_least linear base n =
    let one_time = mul-le-mul_left {m = 1} {n = suc n} base (omega arith) in omega arith
delay_least exponential base n =
    let one_time =
      mul-le-mul_left {m = 2 ^ 0} {n = 2 ^ (suc n - 1)} base
        (pow-le-pow_right {n = 2} (omega arith) {i = 0} {j = suc n - 1} (omega arith)) in
    omega arith

-- With a positive base and maximum each retry has a delay: it is not below the base or else the
-- maximum, not above the maximum, and not above that of a later retry.
pub retry_delay_seconds-grows :
    (mode : RetryBackoff) (base maximum n k : ℕ)
    → (d : ℕ) × (later : ℕ) × (retry_delay_seconds
          (pos (suc n))
          (pos (suc maximum))
          mode
          (pos (suc base))
        ≡ ok d)
      × (retry_delay_seconds (pos (suc n + k)) (pos (suc maximum)) mode (pos (suc base)) ≡ ok later)
      × (min (suc base) (suc maximum) ≤ d)
      × (d ≤ later)
      × (later ≤ suc maximum)
unfolding retry_delay_seconds
retry_delay_seconds-grows mode base maximum n k =
    let le = delay-grows mode (suc base) n k in
    let least = delay_least mode (suc base) n in
    (
      min (delay mode (suc base) (suc n)) (suc maximum),
      min (delay mode (suc base) (suc n + k)) (suc maximum),
      ground arith,
      ground arith,
      omega arith,
      omega arith,
      omega arith,
    )
