-- ===== src/Prelude/Int.antt =====
-- Signed integers over the native numbers, and the 64-bit words `int`, `int64` and `uint64`.
use Prim.Native.Nat.{ℕ, zero, suc, ◌+◌, ◌-◌, ◌*◌, ◌%◌, ◌^◌, ◌≤◌, ◌<◌}
use mathlib.Core.Path.{◌≡◌, refl}
use mathlib.Core.Logic.{◌↔◌}
use mathlib.Core.Bool.{Bool, true, false}
use native.Mathlib.Omega.{arith}
use gokue.Prelude.Tests.{ltb, leb, ◌==◌, if◌then◌else◌}

-- `negsuc n` is -(n + 1).
pub data ℤ : Type 0 where
  pos : ℕ → ℤ
  negsuc : ℕ → ℤ

abbrev pub pos_part : ℤ → ℕ
pos_part (pos n) = n
pos_part (negsuc n) = 0

abbrev pub neg_part : ℤ → ℕ
neg_part (pos n) = 0
neg_part (negsuc n) = suc n

-- a - b, as an integer.
abbrev pub sub_ℕ : ℕ → ℕ → ℤ
sub_ℕ a b = if leb b a then pos (a - b) else negsuc (b - a - 1)

infixl 65 ◌+ℤ◌ ◌-ℤ◌
infixl 70 ◌*ℤ◌
infix 50 ◌≤ℤ◌ ◌<ℤ◌
unfoldable pub ◌+ℤ◌ : ℤ → ℤ → ℤ
a +ℤ b = sub_ℕ (pos_part a + pos_part b) (neg_part a + neg_part b)

unfoldable pub ◌-ℤ◌ : ℤ → ℤ → ℤ
a -ℤ b = sub_ℕ (pos_part a + neg_part b) (neg_part a + pos_part b)

unfoldable pub ◌*ℤ◌ : ℤ → ℤ → ℤ
a *ℤ b =
    sub_ℕ (pos_part a * pos_part b + neg_part a * neg_part b)
      (pos_part a * neg_part b + neg_part a * pos_part b)

abbrev pub ◌≤ℤ◌ : ℤ → ℤ → Type 0
a ≤ℤ b = pos_part a + neg_part b ≤ pos_part b + neg_part a

abbrev pub ◌<ℤ◌ : ℤ → ℤ → Type 0
a <ℤ b = pos_part a + neg_part b < pos_part b + neg_part a

abbrev pub ltb_ℤ : ℤ → ℤ → Bool
ltb_ℤ a b = ltb (pos_part a + neg_part b) (pos_part b + neg_part a)

abbrev pub leb_ℤ : ℤ → ℤ → Bool
leb_ℤ a b = leb (pos_part a + neg_part b) (pos_part b + neg_part a)

abbrev pub eqb_ℤ : ℤ → ℤ → Bool
eqb_ℤ (pos a) (pos b) = a == b
eqb_ℤ (pos a) (negsuc b) = false
eqb_ℤ (negsuc a) (pos b) = false
eqb_ℤ (negsuc a) (negsuc b) = a == b

pub eqb_ℤ_iff : (a b : ℤ) → (eqb_ℤ a b ≡ true) ↔ (a ≡ b)
eqb_ℤ_iff a b = ground arith

pub ltb_ℤ_trans : (a b c : ℤ) → ltb_ℤ a b ≡ true → ltb_ℤ b c ≡ true → ltb_ℤ a c ≡ true
ltb_ℤ_trans a b c h k = ground arith

pub eq_of_not-ltb_ℤ : (a b : ℤ) → ltb_ℤ a b ≡ false → ltb_ℤ b a ≡ false → a ≡ b
eq_of_not-ltb_ℤ a b h k = ground arith

-- The integer that the `n`-th 64-bit pattern stands for.
abbrev pub signed : ℕ → ℤ
signed n = if ltb n (2 ^ 63) then pos n else negsuc (2 ^ 64 - 1 - n)

-- The wrap-around of `int` and `int64` arithmetic.
unfoldable pub int64 : ℤ → ℤ
int64 (pos n) = signed (n % 2 ^ 64)
int64 (negsuc n) = signed (2 ^ 64 - 1 - n % 2 ^ 64)

-- The wrap-around of `uint` and `uint64` arithmetic.
abbrev pub uint64 : ℕ → ℕ
uint64 n = n % 2 ^ 64

abbrev pub max_int64 : ℤ
max_int64 = pos (2 ^ 63 - 1)

-- A value that `int` and `int64` can hold.
abbrev pub IsInt64 : ℤ → Type 0
IsInt64 a = (pos_part a < 2 ^ 63) × (neg_part a ≤ 2 ^ 63)

-- A value in range is not changed by the wrap-around.
pub int64_of_IsInt64 : (a : ℤ) → IsInt64 a → int64 a ≡ a
unfolding int64
int64_of_IsInt64 (pos n) h = ground arith
int64_of_IsInt64 (negsuc n) h = ground arith

-- Every result of wrapped arithmetic is in range.
pub int64-IsInt64 : (a : ℤ) → IsInt64 (int64 a)
unfolding int64
int64-IsInt64 (pos n) = ground arith
int64-IsInt64 (negsuc n) = ground arith

pub pos-mul-pos : (a b : ℕ) → pos a *ℤ pos b ≡ pos (a * b)
unfolding ◌*ℤ◌
pos-mul-pos a b = ground arith

pub not-leb-zero_of_pos : (a : ℕ) → 0 < a → leb_ℤ (pos a) (pos 0) ≡ false
not-leb-zero_of_pos a h = ground arith

-- The next version of a record is another one, also where it wraps around.
pub int64_add_one_ne : (v : ℤ) → eqb_ℤ (int64 (v +ℤ pos 1)) v ≡ false
unfolding int64 ◌+ℤ◌
int64_add_one_ne (pos n) = ground arith
int64_add_one_ne (negsuc zero) = refl
int64_add_one_ne (negsuc (suc n)) = ground arith
