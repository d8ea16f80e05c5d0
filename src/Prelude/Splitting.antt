-- ===== src/Prelude/Splitting.antt =====
-- What `split_once` and prefixes say of a text.
use research_lab.Prelude.Text.{Text, has_char, split_once, starts_with}
use research_lab.Prelude.Tests.{Option-cases}
use Prim.Native.Nat.{ℕ}
use mathlib.Core.Path.{◌≡◌, refl, ap}
use mathlib.Core.Logic.{◌↔◌, inl, inr}
use mathlib.Core.Bool.{true, false, ◌||◌}
use mathlib.Core.Option.{Option, none, some}
use mathlib.Core.List.{[], ◌∷◌, ◌++◌}
use native.Mathlib.Omega.{arith}

pub split_once-append :
    (c : ℕ) (a b : Text) → has_char c a ≡ false → split_once c (a ++ c ∷ b) ≡ some (a, b)
unfolding split_once has_char
split_once-append c [] b h = ground arith
split_once-append c (d ∷ a) b h = ground (arith, split_once-append c a b)

pub split_once-none_iff : (c : ℕ) (t : Text) → (split_once c t ≡ none) ↔ (has_char c t ≡ false)
unfolding split_once has_char
split_once-none_iff c [] = ground arith
split_once-none_iff c (d ∷ t) = ground (arith, split_once-none_iff c t)

pub split_once-some :
    (c : ℕ) (t a b : Text)
    → split_once c t ≡ some (a, b)
    → (t ≡ a ++ c ∷ b) × (has_char c a ≡ false)
unfolding split_once has_char
split_once-some c [] a b h = cc
split_once-some c (d ∷ t) [] b h = elim (Option-cases (split_once c t)) [
  | inl none_left ↦ ground arith
  | inr ((a, b'), e) ↦ ground arith
]
split_once-some c (d ∷ t) (x ∷ a) b h = elim (Option-cases (split_once c t)) [
  | inl none_left ↦ ground arith
  | inr ((a', b'), e) ↦ ground (arith, split_once-some c t a b)
]

pub join_injective :
    (c : ℕ) (a a' b b' : Text)
    → has_char c a ≡ false
    → has_char c a' ≡ false
    → a ++ c ∷ b ≡ a' ++ c ∷ b'
    → (a ≡ a') × (b ≡ b')
join_injective c a a' b b' h h' e =
    let left = split_once-append c a b h in
    let right = split_once-append c a' b' h' in
    let both : ◌≡◌ {A = Option (Text × Text)} (some (a, b)) (some (a', b')) =
      cc (ap (split_once c) e) in
    ground arith

pub starts_with-append : (p t : Text) → starts_with p (p ++ t) ≡ true
unfolding starts_with
starts_with-append [] t = refl
starts_with-append (c ∷ p) t = ground (arith, starts_with-append p t)

pub has_char-append : (c : ℕ) (a b : Text) → has_char c (a ++ b) ≡ has_char c a || has_char c b
unfolding has_char
has_char-append c [] b = refl
has_char-append c (d ∷ a) b = ground (arith, has_char-append c a b)
