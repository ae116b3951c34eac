-- ===== src/Backoff.antt =====
-- `retryDelay` of dispatcher/dispatcher.go. What the implementation makes of a float64 that no
-- int64 holds, and the number that `math/rand` draws, are arguments; `none` is the panic of
-- `rand.Int63n` at a bound that is not positive.
pub mod Exact
pub mod Capped
pub mod Overflow
use gokue.Prelude.{
  ℕ, suc, ◌+◌, ◌%◌, String, ◌=?◌, Bool, ◌&&◌, Option, none, some, if◌then◌else◌, ltb,
}
use gokue.Prelude.Int.{ℤ, pos, negsuc, pos_part, leb_ℤ, ltb_ℤ, ◌*ℤ◌, int64}
use gokue.Config.{constant, linear, exponential, exponential_jitter}
use gokue.Float.{Float64, finite, infinity, to_float, pow_2, mul, float_lt, to_int64}

-- `base * 2^attempt`, capped at a positive `max_delay`, for a positive `base`
unfoldable pub capped_exp : ℤ → ℤ → ℕ → Float64
capped_exp base max_delay attempt =
    let exp = mul (to_float (pos_part base)) (pow_2 attempt) in
    let cap = to_float (pos_part max_delay) in
    if ltb_ℤ (pos 0) max_delay && float_lt cap exp then cap else exp

-- `rand.Int63n(n)`: below a positive bound any value can be drawn.
unfoldable pub int63n : ℕ → ℤ → Option ℤ
int63n draw (pos n) = if ltb 0 n then some (pos (draw % n)) else none
int63n draw (negsuc n) = none

-- `time.Duration(rand.Int63n(int64(exp)))`, behind the test `exp <= 0`
unfoldable pub jitter : (Float64 → ℤ) → ℕ → Float64 → Option ℤ
jitter unspecified draw exp =
    if float_lt (finite 0) exp then int63n draw (to_int64 unspecified exp) else some (pos 0)

unfoldable pub retry_delay : (Float64 → ℤ) → ℕ → ℤ → ℤ → ℕ → String → Option ℤ
retry_delay unspecified draw base max_delay attempt strategy =
    if leb_ℤ base (pos 0)
    then some (pos 0)
    else if strategy =? constant
    then some base
    else if strategy =? linear
    then some (int64 (base *ℤ int64 (pos (attempt + 1))))
    else if strategy =? exponential
    then some (to_int64 unspecified (capped_exp base max_delay attempt))
    else if strategy =? exponential_jitter
    then jitter unspecified draw (capped_exp base max_delay attempt)
    else some (pos 0)
