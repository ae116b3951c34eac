-- ===== src/Float/Exact.antt =====
-- Where the float64 arithmetic of Float.antt is exact.
use native.Mathlib.Nat.{
  mul-div_cancel, mul-mod_left, pow-suc, add-suc, mul_assoc, one-le-pow, pow-le-pow_right,
  mul-le-mul_right,
}
use gokue.Prelude.{
  ℕ, zero, suc, ◌+◌, ◌-◌, ◌*◌, ◌/◌, ◌^◌, ◌<◌, ◌≤◌, ◌≡◌, sym, ◌∙◌, arith, Bool-cases, inl, inr, ltb,
  lt→ltb, false, ap,
}
use gokue.Float.{finite, excess_bits, round_at, round_53, to_float, pow_2, mul}

pub pow-add : (j s : ℕ) → 2 ^ (j + s) ≡ 2 ^ j * 2 ^ s
pow-add j zero = omega (arith, ap (λ t. 2 ^ t) (let e : j + 0 ≡ j = omega arith in e))
pow-add j (suc s) = rw (add-suc, pow-suc, pow-suc, pow-add j s) (mul_assoc (2 ^ j) (2 ^ s) 2)

pub pow-pos : (s : ℕ) → 0 < 2 ^ s
pow-pos s = one-le-pow s 2 (omega arith)

half-mul-pow : (b k : ℕ) → b * 2 ^ suc k / 2 ≡ b * 2 ^ k
half-mul-pow b k = rw (pow-suc, ← mul_assoc) (mul-div_cancel (b * 2 ^ k) (omega arith))

excess_bits-le : (f b k : ℕ) → b < 2 ^ 53 → excess_bits f (b * 2 ^ k) ≤ k
unfolding excess_bits
excess_bits-le zero b k h = omega arith
excess_bits-le (suc f) b zero h = ground arith
excess_bits-le (suc f) b (suc k) h = ground (arith, excess_bits-le f b k h, half-mul-pow b k)

round_at_multiple : (s m : ℕ) → 0 < s → round_at s (m * 2 ^ s) ≡ m * 2 ^ s
unfolding round_at
round_at_multiple zero m h = absurd (omega arith)
round_at_multiple (suc s) m h =
    ground (
      arith,
      mul-mod_left m (2 ^ suc s),
      mul-div_cancel m (pow-pos (suc s)),
      pow-suc 2 s,
      pow-pos s,
    )

excess_bits-pos : (n : ℕ) → ltb n (2 ^ 53) ≡ false → 0 < excess_bits n n
unfolding excess_bits
excess_bits-pos zero h = cc
excess_bits-pos (suc n) h = ground arith

-- A 53-bit number is not rounded.
pub round_53_small : (n : ℕ) → n < 2 ^ 53 → round_53 n ≡ n
unfolding round_53
round_53_small n h = rw (lt→ltb n (2 ^ 53) h)

split_power : (b k s : ℕ) → s ≤ k → b * 2 ^ k ≡ b * 2 ^ (k - s) * 2 ^ s
split_power b k s h =
    let e : k ≡ k - s + s = omega arith in
    ap (λ t. b * 2 ^ t) e
    ∙ ap (λ t. b * t) (pow-add (k - s) s)
    ∙ sym (mul_assoc b (2 ^ (k - s)) (2 ^ s))

round_at_exact : (s b k : ℕ) → 0 < s → s ≤ k → round_at s (b * 2 ^ k) ≡ b * 2 ^ k
round_at_exact s b k h l = rw (split_power b k s l) (round_at_multiple s (b * 2 ^ (k - s)) h)

-- A 53-bit number times a power of two is not rounded.
pub round_53_exact : (b k : ℕ) → b < 2 ^ 53 → round_53 (b * 2 ^ k) ≡ b * 2 ^ k
unfolding round_53
round_53_exact b k h =
    let n = b * 2 ^ k in
    elim (Bool-cases (ltb (b * 2 ^ k) (2 ^ 53))) [
      | inl small ↦ rw small
      | inr large ↦
          rw large (
            round_at_exact (excess_bits n n) b k (excess_bits-pos n large) (excess_bits-le n b k h))
    ]

pow_2_finite : (b k : ℕ) → 0 < b → b * 2 ^ k < 2 ^ 63 → pow_2 k ≡ finite (2 ^ k)
unfolding pow_2
pow_2_finite b k p l = elim (Bool-cases (ltb k 1024)) [
  | inl below ↦ rw below
  | inr above ↦
      let beyond : 1024 ≤ k = ground arith in
      absurd
        (omega (arith, mul-le-mul_right (2 ^ k) p, pow-le-pow_right {n = 2} (omega arith) beyond))
]

-- `float64(b) * math.Pow(2, k)` is the number it stands for, as long as it is below 2^63.
pub mul-pow_2_exact :
    (b k : ℕ)
    → 0 < b
    → b < 2 ^ 53
    → b * 2 ^ k < 2 ^ 63
    → mul (to_float b) (pow_2 k) ≡ finite (b * 2 ^ k)
unfolding mul to_float
mul-pow_2_exact b k p h l =
    rw (pow_2_finite b k p l, mul, round_53_small b h, mul, round_53_exact b k h)
      (rw (lt→ltb (b * 2 ^ k) (2 ^ 1024) (omega arith)))
