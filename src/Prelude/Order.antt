-- ===== src/Prelude/Order.antt =====
-- The order of texts by their bytes, as Go's `<` on strings and `sort.Strings` have it.
use Prim.Native.Nat.{Ordering}
use Prim.Native.String.compare as cmp
use Prim.Native.String.{String, [], ◌∷◌, compare}
use mathlib.Core.Path.{◌≡◌, refl}
use mathlib.Core.Bool.{Bool, true, false}
use native.Mathlib.Omega.{arith}
use text.Mathlib.TextEquality.{path_by_compare}
use text.Mathlib.TextPositions.{compare_refl}

abbrev pub str_lt : String → String → Bool
str_lt s t = elim (compare s t) [ Ordering.lt ↦ true | _ ↦ false ]

abbrev swap : Ordering → Ordering
swap Ordering.lt = Ordering.gt
swap Ordering.eq = Ordering.eq
swap Ordering.gt = Ordering.lt

compare-swap : (s t : String) → compare t s ≡ swap (compare s t)
compare-swap [] [] = refl
compare-swap [] (d ∷ t) = ground (arith, cmp.nil-cons d t, cmp.cons-nil d t)
compare-swap (c ∷ s) [] = ground (arith, cmp.nil-cons c s, cmp.cons-nil c s)
compare-swap (c ∷ s) (d ∷ t) =
    ground (arith, compare-swap s t, cmp.cons-cons c d s t, cmp.cons-cons d c t s)

pub str_lt_irrefl : (s : String) → str_lt s s ≡ false
str_lt_irrefl s = ground (arith, compare_refl s)

pub str_lt_total : (s t : String) → str_lt s t ≡ false → str_lt t s ≡ false → s ≡ t
str_lt_total s t h k = path_by_compare s t (ground (arith, compare-swap s t))

pub str_lt_trans : (s t u : String) → str_lt s t ≡ true → str_lt t u ≡ true → str_lt s u ≡ true
str_lt_trans s [] u h k = absurd (not-lt-nil s h)
  where
    not-lt-nil : (s : String) → str_lt s [] ≡ true → ⊥
    not-lt-nil [] e = cc
    not-lt-nil (c ∷ s) e = ground (arith, cmp.cons-nil c s)
str_lt_trans s (d ∷ t) [] h k = ground (arith, cmp.cons-nil d t)
str_lt_trans [] (d ∷ t) (e ∷ u) h k = ground (arith, cmp.nil-cons e u)
str_lt_trans (c ∷ s) (d ∷ t) (e ∷ u) h k =
    ground (
      arith,
      str_lt_trans s t u,
      cmp.cons-cons c d s t,
      cmp.cons-cons d e t u,
      cmp.cons-cons c e s u,
    )
