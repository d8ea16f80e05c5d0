-- ===== src/Prelude/Float.antt =====
-- Comparisons of `f64`, each a bit pattern: a sign bit, eleven bits of exponent and the mantissa.
use research_lab.Prelude.Tests.{leb, ltb, ◌==◌, if◌then◌else◌}
use Prim.Native.Nat.{ℕ, ◌*◌, ◌/◌, ◌%◌, ◌^◌}
use mathlib.Core.Bool.{Bool, false, not, ◌&&◌, ◌||◌}

-- `f64::is_finite`: the exponent bits are not all ones.
unfoldable pub is_finite : ℕ → Bool
is_finite bits = not ((bits / 2 ^ 52) % 2 ^ 11 == 2047)

is_nan : ℕ → Bool
is_nan bits = ltb (2047 * 2 ^ 52) (bits % 2 ^ 63)

is_negative : ℕ → Bool
is_negative bits = leb (2 ^ 63) bits

-- `<` and `<=`: the bits below the sign are ordered as the magnitudes are.
unfoldable pub float_lt : ℕ → ℕ → Bool
unfolding is_nan is_negative
float_lt a b =
    let p = a % 2 ^ 63 in
    let q = b % 2 ^ 63 in
    not (is_nan a || is_nan b)
    && (if is_negative a
        then (if is_negative b then ltb q p else not (p == 0 && q == 0))
        else (if is_negative b then false else ltb p q))

unfoldable pub float_le : ℕ → ℕ → Bool
unfolding float_lt is_nan
float_le a b = not (is_nan a || is_nan b) && not (float_lt b a)
