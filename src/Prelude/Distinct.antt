-- ===== src/Prelude/Distinct.antt =====
-- Lists of texts without repetition, and why a list of keys of a map is no longer than the map.
use research_lab.Prelude.Lists.{length, All, All-append, any}
use research_lab.Prelude.Text.{Text, text_eq, text_eq_iff, text_cmp_eq}
use research_lab.Prelude.Assoc.{Assoc, get, remove}
use Prim.Native.Nat.{suc, ◌≤◌}
use mathlib.Core.Path.{◌≡◌, refl, sym, ◌∙◌}
use mathlib.Core.Logic.{◌≢◌}
use mathlib.Core.Bool.{false}
use mathlib.Core.Option.{some}
use mathlib.Core.List.{List, [], ◌∷◌, ◌++◌}
use native.Mathlib.Omega.{arith}

abbrev pub IsDistinct : List Text → Type 0
IsDistinct [] = Unit
IsDistinct (x ∷ xs) = All (λ y. x ≢ y) xs × IsDistinct xs

pub IsDistinct-snoc :
    (xs : List Text) (x : Text) → IsDistinct xs → All (λ y. y ≢ x) xs → IsDistinct (xs ++ x ∷ [])
IsDistinct-snoc [] x d h = (tt, tt)
IsDistinct-snoc (y ∷ ys) x d h =
    (All-append (λ z. y ≢ z) ys (x ∷ []) d.0 (h.0, tt), IsDistinct-snoc ys x d.1 h.1)

pub any-text_eq-false :
    (xs : List Text) (x : Text) → any (λ value. text_eq value x) xs ≡ false → All (λ y. y ≢ x) xs
any-text_eq-false [] x e = tt
any-text_eq-false (y ∷ ys) x e =
    ((λ h. ground (arith, text_eq_iff y x)), any-text_eq-false ys x (ground arith))

module _ {ℓ} {V : Type ℓ} where
  length-remove :
      (k : Text) (v : V) (m : Assoc V) → get k m ≡ some v → suc (length (remove k m)) ≡ length m
  unfolding get remove
  length-remove k v [] e = cc
  length-remove k v ((j, w) ∷ m) e = ground (arith, length-remove k v m)

  get-remove_ne : (j k : Text) (m : Assoc V) → j ≢ k → get j (remove k m) ≡ get j m
  unfolding get remove
  get-remove_ne j k [] h = refl
  get-remove_ne j k ((i, w) ∷ m) h =
      ground (arith, get-remove_ne j k m h, text_cmp_eq k i, text_cmp_eq j i)

  abbrev pub Holds : Assoc V → Text → Type ℓ
  Holds m k = (v : V) × (get k m ≡ some v)

  Holds-remove :
      (k : Text) (m : Assoc V) (xs : List Text)
      → All (λ y. k ≢ y) xs
      → All (Holds m) xs
      → All (Holds (remove k m)) xs
  Holds-remove k m [] d h = tt
  Holds-remove k m (y ∷ ys) d h =
      ((h.0.0, get-remove_ne y k m (λ e. d.0 (sym e)) ∙ h.0.1), Holds-remove k m ys d.1 h.1)

  -- Distinct keys of a map are at most as many as its entries.
  pub length-le-length :
      (xs : List Text) (m : Assoc V) → IsDistinct xs → All (Holds m) xs → length xs ≤ length m
  length-le-length [] m d h = omega arith
  length-le-length (x ∷ xs) m d h = omega (
    arith,
    length-remove x h.0.0 m h.0.1,
    length-le-length xs (remove x m) d.1 (Holds-remove x m xs d.0 h.1),
  )

pub any-text_eq-of_ne :
    (xs : List Text) (x : Text) → All (λ y. y ≢ x) xs → any (λ value. text_eq value x) xs ≡ false
any-text_eq-of_ne [] x h = refl
any-text_eq-of_ne (y ∷ ys) x h = ground (arith, text_eq_iff y x, h.0, any-text_eq-of_ne ys x h.1)
