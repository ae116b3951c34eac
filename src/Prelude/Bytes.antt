-- ===== src/Prelude/Bytes.antt =====
-- A Go string that the program orders, as the list of its bytes, and Go's order on such strings.
use Prim.Native.Nat.{ℕ}
use mathlib.Core.Path.{◌≡◌, refl}
use mathlib.Core.Logic.{◌↔◌}
use mathlib.Core.Bool.{Bool, true, false, ◌&&◌, ◌||◌}
use mathlib.Core.List.{List, [], ◌∷◌}
use native.Mathlib.Omega.{arith}
use gokue.Prelude.Tests.{ltb, ◌==◌}

abbrev pub Bytes : Type 0
Bytes = List ℕ

unfoldable pub bytes_eq : Bytes → Bytes → Bool
bytes_eq [] [] = true
bytes_eq [] (b ∷ bs) = false
bytes_eq (a ∷ as') [] = false
bytes_eq (a ∷ as') (b ∷ bs) = (a == b) && bytes_eq as' bs

unfoldable pub bytes_lt : Bytes → Bytes → Bool
bytes_lt [] [] = false
bytes_lt [] (b ∷ bs) = true
bytes_lt (a ∷ as') [] = false
bytes_lt (a ∷ as') (b ∷ bs) = ltb a b || ((a == b) && bytes_lt as' bs)

pub bytes_eq→eq : (s t : Bytes) → bytes_eq s t ≡ true → s ≡ t
unfolding bytes_eq
bytes_eq→eq [] [] h = refl
bytes_eq→eq [] (b ∷ bs) h = cc
bytes_eq→eq (a ∷ as') [] h = cc
bytes_eq→eq (a ∷ as') (b ∷ bs) h = ground (arith, bytes_eq→eq as' bs)

pub bytes_eq_refl : (s : Bytes) → bytes_eq s s ≡ true
unfolding bytes_eq
bytes_eq_refl [] = refl
bytes_eq_refl (a ∷ as') = ground (arith, bytes_eq_refl as')

pub bytes_eq_iff : (s t : Bytes) → (bytes_eq s t ≡ true) ↔ (s ≡ t)
bytes_eq_iff s t = (bytes_eq→eq s t, λ e. rw e (bytes_eq_refl t))

pub bytes_lt_irrefl : (s : Bytes) → bytes_lt s s ≡ false
unfolding bytes_lt
bytes_lt_irrefl [] = refl
bytes_lt_irrefl (a ∷ as') = ground (arith, bytes_lt_irrefl as')

pub bytes_lt_trans :
    (s t u : Bytes) → bytes_lt s t ≡ true → bytes_lt t u ≡ true → bytes_lt s u ≡ true
unfolding bytes_lt
bytes_lt_trans [] [] u h k = cc
bytes_lt_trans [] (b ∷ t) [] h k = cc
bytes_lt_trans [] (b ∷ t) (c ∷ u) h k = refl
bytes_lt_trans (a ∷ s) [] u h k = cc
bytes_lt_trans (a ∷ s) (b ∷ t) [] h k = cc
bytes_lt_trans (a ∷ s) (b ∷ t) (c ∷ u) h k = ground (arith, bytes_lt_trans s t u)

pub eq_of_not-bytes_lt : (s t : Bytes) → bytes_lt s t ≡ false → bytes_lt t s ≡ false → s ≡ t
unfolding bytes_lt
eq_of_not-bytes_lt [] [] h k = refl
eq_of_not-bytes_lt [] (b ∷ t) h k = cc
eq_of_not-bytes_lt (a ∷ s) [] h k = cc
eq_of_not-bytes_lt (a ∷ s) (b ∷ t) h k = ground (arith, eq_of_not-bytes_lt s t)
