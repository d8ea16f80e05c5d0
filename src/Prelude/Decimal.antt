-- ===== src/Prelude/Decimal.antt =====
-- `format!("{n}")` and `format!("{n:04}")`: the decimal digits of a number, and their padding.
use Prim.Native.Nat.{ℕ, zero, suc, ◌+◌, ◌-◌, ◌*◌, ◌/◌, ◌%◌, ◌<◌, ◌≤◌}
use mathlib.Core.Path.{◌≡◌, refl, ap, ◌∙◌}
use mathlib.Core.Logic.{inl, inr}
use mathlib.Core.List.{[], ◌∷◌}
use native.Mathlib.Omega.{arith}
use research_lab.Prelude.Tests.{ltb, if◌then◌else◌, Bool-cases}
use research_lab.Prelude.Lists.{length}
use research_lab.Prelude.Text.{Text}

decimal_from : ℕ → ℕ → Text → Text
decimal_from zero n digits = digits
decimal_from (suc fuel) n digits =
    let rest = decimal_from fuel (n / 10) ((b'0' + n % 10) ∷ digits) in
    if ltb n 10 then (b'0' + n) ∷ digits else rest

-- A number has no more digits than the fuel.
unfoldable pub decimal : ℕ → Text
unfolding decimal_from
decimal n = decimal_from (suc n) n []

zeros : ℕ → Text → Text
zeros zero t = t
zeros (suc n) t = b'0' ∷ zeros n t

unfoldable pub padded : ℕ → ℕ → Text
unfolding decimal zeros
padded width n = zeros (width - length (decimal n)) (decimal n)

-- The number that digits spell, after those that spell another.
abbrev pub read_from : ℕ → Text → ℕ
read_from n [] = n
read_from n (c ∷ t) = read_from (n * 10 + (c - b'0')) t

read_from-decimal_from :
    (fuel n : ℕ) (digits : Text)
    → n < fuel
    → read_from 0 (decimal_from fuel n digits) ≡ read_from n digits
unfolding decimal_from
read_from-decimal_from zero n digits lt = absurd (omega arith)
read_from-decimal_from (suc fuel) n digits lt = elim (Bool-cases (ltb n 10)) [
  | inl t ↦ rw t (same (omega arith))
  | inr t ↦
      let big : 10 ≤ n = ground arith in
      rw t (
        read_from-decimal_from fuel (n / 10) ((b'0' + n % 10) ∷ digits) (omega arith)
        ∙ same (omega arith))
]
  where
    same : {a b : ℕ} → a ≡ b → read_from a digits ≡ read_from b digits
    same e = ap (λ k. read_from k digits) e

read_from-zeros : (n : ℕ) (t : Text) → read_from 0 (zeros n t) ≡ read_from 0 t
unfolding zeros
read_from-zeros zero t = refl
read_from-zeros (suc n) t = read_from-zeros n t

-- The padded digits of a number spell it.
pub read_from-padded : (width n : ℕ) → read_from 0 (padded width n) ≡ n
unfolding padded decimal
read_from-padded width n =
    read_from-zeros (width - length (decimal n)) (decimal n)
    ∙ read_from-decimal_from (suc n) n [] (omega arith)
