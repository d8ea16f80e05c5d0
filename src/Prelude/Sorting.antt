-- ===== src/Prelude/Sorting.antt =====
-- `slice::sort_by`, which is stable, and `Iterator::max_by_key` on texts.
use research_lab.Prelude.Lists.{Member, All}
use research_lab.Prelude.Tests.{if◌then◌else◌, Bool-cases}
use research_lab.Prelude.Text.{Text, text_cmp, text_cmp_flip}
use Prim.Native.Nat.{Ordering}
use mathlib.Core.Path.{◌≡◌, refl, subst}
use mathlib.Core.Logic.{◌≢◌, ◌↔◌, ◌⊎◌, inl, inr}
use mathlib.Core.Bool.{Bool}
use mathlib.Core.Option.{Option, none, some}
use mathlib.Core.List.{List, [], ◌∷◌}
use native.Mathlib.Omega.{arith}

module _ {A : Type 0} (after : A → A → Bool) where
  -- The place of an element is before the first that does not have to stand before it.
  pub insert_by : A → List A → List A
  insert_by x [] = x ∷ []
  insert_by x (y ∷ ys) = let rest = insert_by x ys in if after x y then y ∷ rest else x ∷ y ∷ ys

  unfoldable pub sort_by : List A → List A
  unfolding insert_by
  sort_by [] = []
  sort_by (x ∷ xs) = insert_by x (sort_by xs)

  Member-insert_by : (a x : A) (ys : List A) → Member a (insert_by x ys) ↔ ((a ≡ x) ⊎ Member a ys)
  unfolding insert_by
  Member-insert_by a x [] = (λ m. m, λ m. m)
  Member-insert_by a x (y ∷ ys) = elim (Bool-cases (after x y)) [
    | inr t ↦ rw (insert_by, t) (λ m. m, λ m. m)
    | inl t ↦
        let rest = Member-insert_by a x ys in
        rw (insert_by, t)
          (
            λ m. elim m [
              | inl e ↦ inr (inl e)
              | inr n ↦ elim (rest.0 n) [ inl e ↦ inl e | inr k ↦ inr (inr k) ]
            ],
            λ m. elim m [
              | inl e ↦ inr (rest.1 (inl e))
              | inr (inl e) ↦ inl e
              | inr (inr k) ↦ inr (rest.1 (inr k))
            ],
          )
  ]

  -- Sorting loses nothing and adds nothing.
  pub Member-sort_by : (a : A) (xs : List A) → Member a (sort_by xs) ↔ Member a xs
  unfolding sort_by
  Member-sort_by a [] = (λ m. m, λ m. m)
  Member-sort_by a (x ∷ xs) =
      let here = Member-insert_by a x (sort_by xs) in
      let rest = Member-sort_by a xs in
      (
        λ m. elim (here.0 m) [ inl e ↦ inl e | inr k ↦ inr (rest.0 k) ],
        λ m. elim m [ inl e ↦ here.1 (inl e) | inr k ↦ here.1 (inr (rest.1 k)) ],
      )

-- The first is not after the second.
abbrev pub IsLe : Text → Text → Type 0
IsLe s t = text_cmp s t ≢ Ordering.gt

pub IsLe-trans : (r s t : Text) → IsLe r s → IsLe s t → IsLe r t
unfolding text_cmp
IsLe-trans [] s [] h k = λ e. ground arith
IsLe-trans [] s (e ∷ t) h k = λ e. ground arith
IsLe-trans (c ∷ r) [] t h k = absurd (h refl)
IsLe-trans (c ∷ r) (d ∷ s) [] h k = absurd (k refl)
IsLe-trans (c ∷ r) (d ∷ s) (e ∷ t) h k = λ x. ground (arith, IsLe-trans r s t)

module _ {A : Type 0} (key : A → Text) where
  -- The last of those with the largest key, of an element and those that follow.
  pub max_from : A → List A → A
  max_from best [] = best
  max_from best (x ∷ xs) = elim (text_cmp (key best) (key x)) [
    | Ordering.gt ↦ max_from best xs
    | _ ↦ max_from x xs
  ]

  unfoldable pub max_by_key : List A → Option A
  unfolding max_from
  max_by_key [] = none
  max_by_key (x ∷ xs) = some (max_from x xs)

  -- It is one of them, and none has a larger key.
  abbrev pub IsMax : A → List A → Type 0
  IsMax m xs = Member m xs × All (λ x. IsLe (key x) (key m)) xs

  max_from-IsMax : (best : A) (xs : List A) → IsMax (max_from best xs) (best ∷ xs)
  unfolding max_from
  max_from-IsMax best [] =
      (inl refl, ((λ e. ground (arith, text_cmp_flip (key best) (key best))), tt))
  max_from-IsMax best (x ∷ xs) =
      at (text_cmp (key best) (key x)) refl (max_from-IsMax best xs) (max_from-IsMax x xs)
    where
      at :
          (o : Ordering)
          → text_cmp (key best) (key x) ≡ o
          → IsMax (max_from best xs) (best ∷ xs)
          → IsMax (max_from x xs) (x ∷ xs)
          → IsMax (elim o [ Ordering.gt ↦ max_from best xs | _ ↦ max_from x xs ]) (best ∷ x ∷ xs)
      at Ordering.gt e (m, (b, rest)) k =
          let below : IsLe (key x) (key best) =
            λ g. ground (arith, text_cmp_flip (key x) (key best)) in
          (
            elim m [ inl k ↦ inl k | inr k ↦ inr (inr k) ],
            (b, (IsLe-trans (key x) (key best) (key (max_from best xs)) below b, rest)),
          )
      at Ordering.eq e h (m, (b, rest)) = (
        inr m,
        (IsLe-trans (key best) (key x) (key (max_from x xs)) (λ g. ground arith) b, (b, rest)),
      )
      at Ordering.lt e h (m, (b, rest)) = (
        inr m,
        (IsLe-trans (key best) (key x) (key (max_from x xs)) (λ g. ground arith) b, (b, rest)),
      )

  pub max_by_key-IsMax : (m : A) (xs : List A) → max_by_key xs ≡ some m → IsMax m xs
  unfolding max_by_key
  max_by_key-IsMax m [] e = cc
  max_by_key-IsMax m (x ∷ xs) e =
      let same : max_from x xs ≡ m = cc e in
      subst (λ m. IsMax m (x ∷ xs)) same (max_from-IsMax x xs)

  pub max_by_key-none : (xs : List A) → max_by_key xs ≡ none → xs ≡ []
  unfolding max_by_key
  max_by_key-none [] e = refl
  max_by_key-none (x ∷ xs) e = cc
