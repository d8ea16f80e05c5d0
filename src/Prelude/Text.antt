-- ===== src/Prelude/Text.antt =====
-- Rust's `String` and `&str` as lists of code points, ordered as Rust orders them (the order of
-- the UTF-8 bytes is that of the code points), and the string methods that the program calls.
use Prim.Native.Nat.{ℕ, ◌+◌, ◌/◌, ◌%◌, compare, Ordering}
use Prim.Native.Char.{code}
use Prim.Native.String.{String}
use mathlib.Core.Path.{◌≡◌, refl}
use mathlib.Core.Logic.{◌↔◌}
use mathlib.Core.Bool.{Bool, true, false, ◌&&◌, ◌||◌}
use mathlib.Core.List.{List, [], ◌∷◌}
use mathlib.Core.Option.{Option, none, some}
use native.Mathlib.Omega.{arith}
use research_lab.Prelude.Tests.{leb, ltb, ◌==◌, if◌then◌else◌}
use research_lab.Prelude.Lists.{all, any}

abbrev pub Text : Type 0
Text = List ℕ

-- A string literal.
abbrev pub txt : String → Text
txt String.[] = []
txt (String.◌∷◌ c s) = code c ∷ txt s

-- `Ord::cmp` of two strings.
unfoldable pub text_cmp : Text → Text → Ordering
text_cmp [] [] = Ordering.eq
text_cmp [] (d ∷ t) = Ordering.lt
text_cmp (c ∷ s) [] = Ordering.gt
text_cmp (c ∷ s) (d ∷ t) =
    let rest = text_cmp s t in
    elim (compare c d) [
      | Ordering.lt ↦ Ordering.lt
      | Ordering.eq ↦ rest
      | Ordering.gt ↦ Ordering.gt
    ]

-- `==` of two strings.
unfoldable pub text_eq : Text → Text → Bool
text_eq [] [] = true
text_eq [] (d ∷ t) = false
text_eq (c ∷ s) [] = false
text_eq (c ∷ s) (d ∷ t) = c == d && text_eq s t

pub text_eq_iff : (s t : Text) → (text_eq s t ≡ true) ↔ (s ≡ t)
unfolding text_eq
text_eq_iff [] [] = ground arith
text_eq_iff [] (d ∷ t) = ground arith
text_eq_iff (c ∷ s) [] = ground arith
text_eq_iff (c ∷ s) (d ∷ t) = ground (arith, text_eq_iff s t)

pub text_eq_refl : (s : Text) → text_eq s s ≡ true
text_eq_refl s = (text_eq_iff s s).1 refl

pub text_cmp_eq : (s t : Text) → (text_cmp s t ≡ Ordering.eq) ↔ (s ≡ t)
unfolding text_cmp
text_cmp_eq [] [] = ground arith
text_cmp_eq [] (d ∷ t) = ground arith
text_cmp_eq (c ∷ s) [] = ground arith
text_cmp_eq (c ∷ s) (d ∷ t) = ground (arith, text_cmp_eq s t)

pub text_cmp_refl : (s : Text) → text_cmp s s ≡ Ordering.eq
text_cmp_refl s = (text_cmp_eq s s).1 refl

pub text_cmp_flip : (s t : Text) → (text_cmp s t ≡ Ordering.gt) ↔ (text_cmp t s ≡ Ordering.lt)
unfolding text_cmp
text_cmp_flip [] [] = ground arith
text_cmp_flip [] (d ∷ t) = ground arith
text_cmp_flip (c ∷ s) [] = ground arith
text_cmp_flip (c ∷ s) (d ∷ t) = ground (arith, text_cmp_flip s t)

pub text_lt_trans :
    (r s t : Text)
    → text_cmp r s ≡ Ordering.lt
    → text_cmp s t ≡ Ordering.lt
    → text_cmp r t ≡ Ordering.lt
unfolding text_cmp
text_lt_trans [] [] t h k = ground arith
text_lt_trans [] (d ∷ s) [] h k = ground arith
text_lt_trans [] (d ∷ s) (e ∷ t) h k = refl
text_lt_trans (c ∷ r) [] t h k = ground arith
text_lt_trans (c ∷ r) (d ∷ s) [] h k = ground arith
text_lt_trans (c ∷ r) (d ∷ s) (e ∷ t) h k = ground (arith, text_lt_trans r s t)

-- `char::is_whitespace`: the code points with Unicode's White_Space property.
unfoldable pub is_whitespace : ℕ → Bool
is_whitespace c =
    (leb 9 c && leb c 13)
    || (c == 32
        || (c == 0x85
            || (c == 0xa0
                || (c == 0x1680
                    || ((leb 0x2000 c && leb c 0x200a)
                        || (c == 0x2028
                            || (c == 0x2029 || (c == 0x202f || (c == 0x205f || c == 0x3000)))))))))

-- `value.trim().is_empty()`
unfoldable pub is_blank : Text → Bool
unfolding is_whitespace
is_blank t = all is_whitespace t

-- `char::is_ascii_alphanumeric`
unfoldable pub is_ascii_alphanumeric : ℕ → Bool
is_ascii_alphanumeric c =
    (leb b'0' c && leb c b'9') || ((leb b'A' c && leb c b'Z') || (leb b'a' c && leb c b'z'))

-- `value.contains(c)` for a character.
unfoldable pub has_char : ℕ → Text → Bool
has_char c t = any (λ d. d == c) t

-- `value.starts_with(prefix)`
unfoldable pub starts_with : Text → Text → Bool
starts_with [] t = true
starts_with (c ∷ p) [] = false
starts_with (c ∷ p) (d ∷ t) = c == d && starts_with p t

-- `value.split(c)`: the pieces between the separators, one at least.
unfoldable pub cons_head : ℕ → List Text → List Text
cons_head c [] = (c ∷ []) ∷ []
cons_head c (p ∷ ps) = (c ∷ p) ∷ ps

unfoldable pub split : ℕ → Text → List Text
unfolding cons_head
split c [] = [] ∷ []
split c (d ∷ t) = let rest = split c t in if d == c then [] ∷ rest else cons_head d rest

-- `value.split_once(c)`
unfoldable pub split_once : ℕ → Text → Option (Text × Text)
split_once c [] = none
split_once c (d ∷ t) =
    let rest = split_once c t in
    if d == c then some ([], t) else elim rest [ none ↦ none | some (a, b) ↦ some (d ∷ a, b) ]

-- `value.as_bytes()`: the UTF-8 bytes of the code points.
utf8 : ℕ → List ℕ → List ℕ
utf8 c bytes =
    if ltb c 0x80
    then c ∷ bytes
    else if ltb c 0x800
    then (0xc0 + c / 64) ∷ (0x80 + c % 64) ∷ bytes
    else if ltb c 0x10000
    then (0xe0 + c / 4096) ∷ (0x80 + c / 64 % 64) ∷ (0x80 + c % 64) ∷ bytes
    else (0xf0 + c / 262144)
      ∷ (0x80 + c / 4096 % 64)
      ∷ (0x80 + c / 64 % 64)
      ∷ (0x80 + c % 64)
      ∷ bytes

unfoldable pub as_bytes : Text → List ℕ
unfolding utf8
as_bytes [] = []
as_bytes (c ∷ t) = utf8 c (as_bytes t)
