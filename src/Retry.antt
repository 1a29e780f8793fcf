-- ===== src/Retry.antt =====
-- retry.go: errors that are not to be retried, and the default delay before a retry. Durations are
-- nanoseconds. The float64 arithmetic of the code is exact for the values below the cap: the base times
-- a power of two has 33 bits of mantissa; past the range of float64 it is infinite, above the cap.
use native.Mathlib.Nat.{pow-le-pow_right}
use chronos_go.Common.{
  ℕ, ◌+◌, ◌*◌, ◌^◌, ◌≤◌, ◌<◌, ◌≡◌, Text, Bool, true, false, ltb, if◌then◌else◌, arith,
}

-- A Go error: an error without a cause, one marked by SkipRetry, or one that wraps another.
pub data GoError : Type 0 where
  plain : Text → GoError
  skip_retry : GoError → GoError
  wrap : Text → GoError → GoError

-- asSkipRetry: errors.As walks the chain of causes.
unfoldable pub as_skip_retry : GoError → Bool
as_skip_retry (plain message) = false
as_skip_retry (skip_retry e) = true
as_skip_retry (wrap message e) = as_skip_retry e

-- Error()
unfoldable pub error_text : GoError → Text
error_text (plain message) = message
error_text (skip_retry e) = error_text e
error_text (wrap message e) = message

abbrev pub retry_base_delay : ℕ
retry_base_delay = 5000000000

abbrev pub retry_max_delay : ℕ
retry_max_delay = 900000000000

-- The cap on the delay.
unfoldable pub retry_ceiling : ℕ → ℕ
retry_ceiling retried =
    let ceiling = retry_base_delay * 2 ^ retried in
    if ltb retry_max_delay ceiling then retry_max_delay else ceiling

-- DefaultRetryDelay, with what rand.Int63n returns for a bound.
unfoldable pub default_retry_delay : (ℕ → ℕ) → ℕ → GoError → ℕ
unfolding retry_ceiling
default_retry_delay int63n retried e = int63n (retry_ceiling retried + 1)

pow_two_mono : (m n : ℕ) → m ≤ n → 2 ^ m ≤ 2 ^ n
pow_two_mono m n h = pow-le-pow_right {n = 2} (omega arith) h

-- The cap on the delay does not fall as the retries grow.
pub retry_ceiling_mono : (m n : ℕ) → m ≤ n → retry_ceiling m ≤ retry_ceiling n
unfolding retry_ceiling
retry_ceiling_mono m n h = ground (arith, pow_two_mono m n h)

-- From the eighth retry on the cap is 15 minutes.
pub retry_ceiling_capped : (retried : ℕ) → 8 ≤ retried → retry_ceiling retried ≡ retry_max_delay
unfolding retry_ceiling
retry_ceiling_capped retried h = ground (arith, pow_two_mono 8 retried h)

-- rand.Int63n(n) is below n; the delay is then at most the cap, which never passes 15 minutes.
module _ (int63n : ℕ → ℕ) (int63n_below : (n : ℕ) → 0 < n → int63n n < n) where
  -- For a rand.Int63n that returns less than its positive argument, the default delay is at most
  -- 5 s doubled once for each retry made, and at most 15 minutes.
  pub default_retry_delay_bounds :
      (retried : ℕ) (e : GoError)
      → (default_retry_delay int63n retried e ≤ retry_base_delay * 2 ^ retried)
        × (default_retry_delay int63n retried e ≤ retry_max_delay)
  unfolding default_retry_delay
  default_retry_delay_bounds retried e =
      let below = int63n_below (retry_ceiling retried + 1) (omega arith) in
      (ground (arith, below), ground (arith, below))
