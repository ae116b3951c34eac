-- ===== src/Backoff/Capped.antt =====
-- The cap on the exponential delays of `retryDelay`, at every attempt.
use native.Mathlib.Nat.{mod-lt}
use gokue.Prelude.{
  ℕ, zero, suc, ◌%◌, ◌^◌, ◌<◌, ◌≤◌, ◌≡◌, refl, ◌⊎◌, String, some, arith, Bool-cases, inl, inr, true,
  lt→ltb, if◌then◌else◌,
}
use gokue.Prelude.Int.{ℤ, pos, leb_ℤ, ltb_ℤ}
use gokue.Config.{exponential, exponential_jitter}
use gokue.Float.{Float64, finite, infinity, to_float, float_lt, to_int64}
use gokue.Float.Exact.{round_53_small}
use gokue.Backoff.{capped_exp, jitter, int63n, retry_delay}

cap_choice :
    (m : ℕ) (x : Float64)
    → (e : ℕ) × ((if float_lt (finite m) x then finite m else x) ≡ finite e) × (e ≤ m)
unfolding float_lt
cap_choice m infinity = (m, refl, omega arith)
cap_choice m (finite n) = elim (Bool-cases (float_lt (finite m) (finite n))) [
  | inl h ↦ (m, rw h, omega arith)
  | inr h ↦ (n, rw h, ground arith)
]

capped_exp_le :
    (base : ℤ) (m attempt : ℕ)
    → 0 < m
    → m < 2 ^ 53
    → (e : ℕ) × (capped_exp base (pos m) attempt ≡ finite e) × (e ≤ m)
unfolding capped_exp to_float
capped_exp_le base m attempt p h =
    let capping : ltb_ℤ (pos 0) (pos m) ≡ true = ground arith in
    rw (capping, round_53_small m h) (cap_choice m _)

jitter_below :
    (unspecified : Float64 → ℤ) (draw e m : ℕ)
    → e ≤ m
    → m < 2 ^ 53
    → (d : ℕ) × (jitter unspecified draw (finite e) ≡ some (pos d)) × (d ≤ m)
unfolding jitter to_int64 int63n float_lt
jitter_below unspecified draw zero m l h = (0, refl, omega arith)
jitter_below unspecified draw (suc e) m l h =
    (draw % suc e, ground arith, omega (arith, mod-lt draw {m = suc e} (omega arith)))

-- Under a cap between 1 and 2^53 - 1 ns the exponential strategies, with and without jitter,
-- return a delay that is not negative and not above the cap: for every base and attempt, also
-- where base * 2^attempt overflows a float64, and whatever is drawn.
pub retry_delay_capped :
    (unspecified : Float64 → ℤ) (draw : ℕ) (base : ℤ) (m attempt : ℕ) (strategy : String)
    → (strategy ≡ exponential) ⊎ (strategy ≡ exponential_jitter)
    → 0 < m
    → m < 2 ^ 53
    → (d : ℕ) × (retry_delay unspecified draw base (pos m) attempt strategy ≡ some (pos d))
      × (d ≤ m)
unfolding retry_delay to_int64
retry_delay_capped unspecified draw base m attempt strategy s p h =
    elim (Bool-cases (leb_ℤ base (pos 0))) [
      | inl low ↦ (0, rw (retry_delay, low), omega arith)
      | inr high ↦
          let (e, capped, below) = capped_exp_le base m attempt p h in
          elim s [
            | inl plain ↦ (
              e,
              rw (plain, retry_delay, high, capped) (rw (lt→ltb e (2 ^ 63) (omega arith))),
              below,
            )
            | inr jittered ↦
                let (d, drawn, small) = jitter_below unspecified draw e m below h in
                (d, rw (jittered, retry_delay, high, capped) drawn, small)
          ]
    ]
