-- ===== src/Backoff/Overflow.antt =====
-- What `retryDelay` does without a cap once base * 2^attempt no longer fits in an int64.
use gokue.Prelude.{
  ℕ, ◌*◌, ◌^◌, ◌<◌, ◌≤◌, ◌≡◌, refl, none, some, arith, Bool-cases, inl, inr, true, false, ltb,
  if◌then◌else◌,
}
use gokue.Prelude.Int.{ℤ, pos, negsuc, ltb_ℤ, ◌≤ℤ◌, not-leb-zero_of_pos}
use gokue.Config.{exponential, exponential_jitter}
use gokue.Float.{Float64, finite, infinity, to_float, float_lt, to_int64, mul, pow_2}
use gokue.Float.Exact.{round_53_small, round_53_exact}
use gokue.Backoff.{capped_exp, jitter, int63n, retry_delay}

IsHuge : Float64 → Type 0
IsHuge (finite n) = 2 ^ 63 ≤ n
IsHuge infinity = Unit

huge-to_int64 :
    (unspecified : Float64 → ℤ) (x : Float64) → IsHuge x → to_int64 unspecified x ≡ unspecified x
unfolding to_int64 IsHuge
huge-to_int64 unspecified (finite n) h = ground arith
huge-to_int64 unspecified infinity h = refl

IsHuge-product : (a p : ℕ) → 2 ^ 63 ≤ p → IsHuge (if ltb p (2 ^ 1024) then finite p else infinity)
unfolding IsHuge
IsHuge-product a p h = elim (Bool-cases (ltb p (2 ^ 1024))) [ inl e ↦ rw e h | inr e ↦ rw e tt ]

mul-pow_2-IsHuge : (b k : ℕ) → b < 2 ^ 53 → 2 ^ 63 ≤ b * 2 ^ k → IsHuge (mul (to_float b) (pow_2 k))
unfolding mul to_float pow_2 IsHuge
mul-pow_2-IsHuge b k h l = elim (Bool-cases (ltb k 1024)) [
  | inl e ↦ rw (e, round_53_small b h, mul, round_53_exact b k h) (IsHuge-product b (b * 2 ^ k) l)
  | inr e ↦ rw (e, mul) tt
]

uncapped_exp :
    (b k : ℕ) (max_delay : ℤ)
    → max_delay ≤ℤ pos 0
    → capped_exp (pos b) max_delay k ≡ mul (to_float b) (pow_2 k)
unfolding capped_exp
uncapped_exp b k max_delay h = let off : ltb_ℤ (pos 0) max_delay ≡ false = ground arith in rw off

not-positive_panics : (draw : ℕ) (d : ℤ) → d ≤ℤ pos 0 → int63n draw d ≡ none
unfolding int63n
not-positive_panics draw (pos n) h = ground arith
not-positive_panics draw (negsuc n) h = refl

huge_positive : (x : Float64) → IsHuge x → float_lt (finite 0) x ≡ true
unfolding float_lt IsHuge
huge_positive (finite n) h = ground arith
huge_positive infinity h = refl

-- Without a cap, once base * 2^attempt is 2^63 ns or more, and on an implementation that converts
-- a float64 out of range to an int64 that is not positive (amd64 gives the least one), the
-- exponential strategy returns a delay that is not positive, so the retry does not wait, and the
-- strategy with jitter panics.
pub retry_delay_overflow :
    (unspecified : Float64 → ℤ) (draw b attempt : ℕ) (max_delay : ℤ)
    → ((x : Float64) → unspecified x ≤ℤ pos 0)
    → 0 < b
    → b < 2 ^ 53
    → max_delay ≤ℤ pos 0
    → 2 ^ 63 ≤ b * 2 ^ attempt
    → ((d : ℤ) × (retry_delay unspecified draw (pos b) max_delay attempt exponential ≡ some d)
        × (d ≤ℤ pos 0))
      × (retry_delay unspecified draw (pos b) max_delay attempt exponential_jitter ≡ none)
unfolding retry_delay jitter
retry_delay_overflow unspecified draw b k max_delay low p h off l =
    let x = mul (to_float b) (pow_2 k) in
    let huge = mul-pow_2-IsHuge b k h l in
    (
      (
        unspecified x,
        rw (
          not-leb-zero_of_pos b p,
          uncapped_exp b k max_delay off,
          huge-to_int64 unspecified x huge,
        ),
        low x,
      ),
      rw
          (
            not-leb-zero_of_pos b p,
            uncapped_exp b k max_delay off,
            huge_positive x huge,
            huge-to_int64 unspecified x huge,
          )
          (not-positive_panics draw (unspecified x) (low x)),
    )
