-- ===== src/Backoff/Exact.antt =====
-- The delays that the comments on `retryDelay` and the formulas of config/config.go promise.
use Prim.Native.Nat.{min}
use native.Mathlib.Nat.{pow-suc, mul-le-mul_left, mul-le-mul_right}
use gokue.Prelude.{ℕ, zero, suc, ◌+◌, ◌*◌, ◌^◌, ◌<◌, ◌≤◌, ◌≡◌, Option, some, arith}
use gokue.Prelude.Int.{ℤ, pos, ◌*ℤ◌, int64, int64_of_IsInt64, pos-mul-pos, not-leb-zero_of_pos}
use gokue.Config.{constant, linear, exponential}
use gokue.Float.{Float64, finite, to_float, float_lt, to_int64}
use gokue.Float.Exact.{mul-pow_2_exact, round_53_small}
use gokue.Backoff.{capped_exp, retry_delay}

-- The multiple of the base that each strategy waits before the retry after attempt `attempt`,
-- uncapped.
abbrev pub exp_delay : ℕ → ℕ → ℕ
exp_delay base attempt = base * 2 ^ attempt

-- What a cap, of which 0 means none, leaves of a delay.
abbrev pub cap_at : ℕ → ℕ → ℕ
cap_at zero d = d
cap_at (suc cap) d = min (suc cap) d

capped_exp_exact :
    (b m attempt : ℕ)
    → 0 < b
    → b < 2 ^ 53
    → m < 2 ^ 53
    → exp_delay b attempt < 2 ^ 63
    → capped_exp (pos b) (pos m) attempt ≡ finite (cap_at m (exp_delay b attempt))
unfolding capped_exp to_float float_lt
capped_exp_exact b zero attempt p h k l = rw (mul-pow_2_exact b attempt p h l)
capped_exp_exact b (suc m) attempt p h k l =
    rw (mul-pow_2_exact b attempt p h l, round_53_small (suc m) k) (ground arith)

suc-le-pow_2 : (k : ℕ) → k + 1 ≤ 2 ^ k
suc-le-pow_2 zero = omega arith
suc-le-pow_2 (suc k) = omega (arith, suc-le-pow_2 k, pow-suc 2 k)

linear_exact :
    (b n : ℕ) → b * n < 2 ^ 63 → n < 2 ^ 63 → int64 (pos b *ℤ int64 (pos n)) ≡ pos (b * n)
linear_exact b n h k =
    rw (int64_of_IsInt64 (pos n) (omega arith), pos-mul-pos b n)
      (int64_of_IsInt64 (pos (b * n)) (omega arith))

exact_to_int64 :
    (unspecified : Float64 → ℤ) (m d : ℕ)
    → d < 2 ^ 63
    → ◌≡◌ {A = Option ℤ}
        (some (to_int64 unspecified (finite (cap_at m d))))
        (some (pos (cap_at m d)))
unfolding to_int64
exact_to_int64 unspecified zero d h = ground arith
exact_to_int64 unspecified (suc m) d h = ground arith

-- For a base below 2^53 ns and a cap below 2^53 ns, and as long as the uncapped delay fits in an
-- int64, `retryDelay` returns the base, the base times attempt + 1, and the base times 2^attempt
-- capped at `maxDelay` (uncapped if that is 0).
pub retry_delay_exact :
    (unspecified : Float64 → ℤ) (draw b m attempt : ℕ)
    → 0 < b
    → b < 2 ^ 53
    → m < 2 ^ 53
    → exp_delay b attempt < 2 ^ 63
    → (retry_delay unspecified draw (pos b) (pos m) attempt constant ≡ some (pos b))
      × (retry_delay unspecified draw (pos b) (pos m) attempt linear
          ≡ some (pos (b * (attempt + 1))))
      × (retry_delay unspecified draw (pos b) (pos m) attempt exponential
          ≡ some (pos (cap_at m (exp_delay b attempt))))
unfolding retry_delay
retry_delay_exact unspecified draw b m attempt p h k l =
    let small = mul-le-mul_left b (suc-le-pow_2 attempt) in
    let count = mul-le-mul_right (attempt + 1) p in
    (
      rw (not-leb-zero_of_pos b p),
      rw (not-leb-zero_of_pos b p, linear_exact b (attempt + 1) (omega arith) (omega arith)),
      rw (not-leb-zero_of_pos b p, capped_exp_exact b m attempt p h k l)
          (exact_to_int64 unspecified m (exp_delay b attempt) l),
    )
