-- ===== src/Json/Paths.antt =====
-- Walking from a value to one inside it, by the keys on the way.
use research_lab.Prelude.{Option, none, some, List, [], ◌∷◌, ◌≡◌, ◌⊎◌, inl, inr, refl, arith}
use research_lab.Prelude.Text.{Text}
use research_lab.Json.{Value, Fields, null, object, get, get_field}

unfoldable pub get_path : List Text → Value → Option Value
unfolding get
get_path [] v = some v
get_path (k ∷ ks) v = elim (get k v) [ none ↦ none | some w ↦ get_path ks w ]

-- The value is a tree of objects along the path up to a key that is not there.
abbrev pub Misses : List Text → Value → Type 0
Misses [] v = ⊥
Misses (k ∷ ks) v =
    (m : Fields) × (v ≡ object m)
    × ((get_field k m ≡ none) ⊎ ((w : Value) × (get_field k m ≡ some w) × Misses ks w))

pub get_path_hit :
    (k : Text) (p : List Text) (v w : Value) → get k v ≡ some w → get_path (k ∷ p) v ≡ get_path p w
unfolding get_path
get_path_hit k p v w e = ground arith

pub get_path_miss :
    (k : Text) (p : List Text) (v : Value) → get k v ≡ none → get_path (k ∷ p) v ≡ none
unfolding get_path
get_path_miss k p v e = ground arith

pub Misses-null : (p : List Text) (w : Value) → Misses p w → get_path p null ≡ none
unfolding get_path
Misses-null [] w miss = absurd miss
Misses-null (k ∷ p) w miss = refl

pub Misses-none : (p : List Text) (v : Value) → Misses p v → get_path p v ≡ none
unfolding get_path
Misses-none [] v miss = absurd miss
Misses-none (k ∷ p) v (m, e, inl absent) = ground arith
Misses-none (k ∷ p) v (m, e, inr (w, found, miss)) = ground (arith, Misses-none p w miss)
