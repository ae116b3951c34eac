-- ===== src/Float.antt =====
-- The float64 arithmetic of the retry delays: the values met there are not negative and integral,
-- so a float64 is a number or +Inf. `math.Pow(2, k)` is exact up to 2^1023, a product is rounded
-- to 53 bits, half to even, and the conversion of a value from 2^63 on to an int64 is left to
-- the implementation by the Go specification: it is an argument.
pub mod Exact
use gokue.Prelude.{
  ℕ, zero, suc, ◌+◌, ◌*◌, ◌/◌, ◌%◌, ◌^◌, Bool, true, false, ◌&&◌, ◌||◌, ltb, ◌==◌, if◌then◌else◌,
}
use gokue.Prelude.Int.{ℤ, pos}

pub data Float64 : Type 0 where
  finite : ℕ → Float64
  infinity : Float64

-- How many of its lowest bits a number has beyond 53; the first argument is fuel, and any that is
-- not below the number is enough.
unfoldable pub excess_bits : ℕ → ℕ → ℕ
excess_bits zero n = 0
excess_bits (suc f) n = elim (ltb n (2 ^ 53)) [ true ↦ 0 | false ↦ suc (excess_bits f (n / 2)) ]

-- Round to a multiple of 2^s, half to even.
unfoldable pub round_at : ℕ → ℕ → ℕ
round_at s n =
    let m = n / 2 ^ s in
    let r = n % 2 ^ s in
    let half = 2 ^ s / 2 in
    (if ltb half r || ((r == half) && (m % 2 == 1)) then m + 1 else m) * 2 ^ s

unfoldable pub round_53 : ℕ → ℕ
unfolding excess_bits round_at
round_53 n = if ltb n (2 ^ 53) then n else round_at (excess_bits n n) n

-- `float64(n)` for an integer that is not negative
unfoldable pub to_float : ℕ → Float64
to_float n = finite (round_53 n)

-- `math.Pow(2, float64(k))`
unfoldable pub pow_2 : ℕ → Float64
pow_2 k = if ltb k 1024 then finite (2 ^ k) else infinity

-- the product of two positive values
unfoldable pub mul : Float64 → Float64 → Float64
mul (finite a) (finite b) =
    let p = round_53 (a * b) in if ltb p (2 ^ 1024) then finite p else infinity
mul (finite a) infinity = infinity
mul infinity y = infinity

unfoldable pub float_lt : Float64 → Float64 → Bool
float_lt (finite a) (finite b) = ltb a b
float_lt (finite a) infinity = true
float_lt infinity y = false

-- `int64(x)`; `unspecified` is what the implementation makes of a value that does not fit.
unfoldable pub to_int64 : (Float64 → ℤ) → Float64 → ℤ
to_int64 unspecified (finite n) = if ltb n (2 ^ 63) then pos n else unspecified (finite n)
to_int64 unspecified infinity = unspecified infinity
