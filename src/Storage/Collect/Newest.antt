-- ===== src/Storage/Collect/Newest.antt =====
-- Runs in the order of their creation, the most recent first.
use research_lab.Prelude.{
  ℕ, zero, suc, List, [], ◌∷◌, ◌++◌, take, drop, length, All, ◌≡◌, ◌≢◌, refl, ap, arith, Ordering,
  Member,
}
use research_lab.Prelude.Text.{text_cmp, text_cmp_flip, text_cmp_eq, text_lt_trans}
use research_lab.Storage.Collect.{Dated, insert_dated, sort_newest_first}
use mathlib.Core.List.{Perm}
use mathlib.Core.List.Perm

-- The first is not older than the second.
abbrev pub NotBelow : Dated → Dated → Type 0
NotBelow x y = text_cmp x.0 y.0 ≢ Ordering.lt

abbrev pub IsDescending : List Dated → Type 0
IsDescending [] = Unit
IsDescending (x ∷ xs) = All (NotBelow x) xs × IsDescending xs

NotBelow-trans : (x y z : Dated) → NotBelow x y → NotBelow y z → NotBelow x z
NotBelow-trans x y z h k e = ground (
  arith,
  text_cmp_flip y.0 z.0,
  text_cmp_flip z.0 y.0,
  text_cmp_eq y.0 z.0,
  text_lt_trans x.0 z.0 y.0 e,
)

All-NotBelow :
    (x y : Dated) (zs : List Dated) → NotBelow x y → All (NotBelow y) zs → All (NotBelow x) zs
All-NotBelow x y [] h a = tt
All-NotBelow x y (z ∷ zs) h a = (NotBelow-trans x y z h a.0, All-NotBelow x y zs h a.1)

insert_dated-All :
    (P : Dated → Type 0) (d : Dated) (xs : List Dated) → P d → All P xs → All P (insert_dated d xs)
unfolding insert_dated
insert_dated-All P d [] h a = (h, tt)
insert_dated-All P d (x ∷ xs) h a =
    let rest = insert_dated-All P d xs h a.1 in
    elim (text_cmp d.0 x.0)
      as (λ o. All P (elim o [ Ordering.lt ↦ x ∷ insert_dated d xs | _ ↦ d ∷ x ∷ xs ])) [
        | Ordering.lt ↦ (a.0, rest)
        | Ordering.eq ↦ (h, a)
        | Ordering.gt ↦ (h, a)
      ]

insert_dated-IsDescending :
    (d : Dated) (xs : List Dated) → IsDescending xs → IsDescending (insert_dated d xs)
unfolding insert_dated
insert_dated-IsDescending d [] s = (tt, tt)
insert_dated-IsDescending d (x ∷ xs) s =
    placed (insert_dated-IsDescending d xs s.1) (text_cmp d.0 x.0) refl
  where
    placed :
        IsDescending (insert_dated d xs)
        → (o : Ordering) → text_cmp d.0 x.0 ≡ o
        → IsDescending (elim o [ Ordering.lt ↦ x ∷ insert_dated d xs | _ ↦ d ∷ x ∷ xs ])
    placed rest Ordering.lt e = (
      insert_dated-All (NotBelow x) d xs
          (λ k. ground (arith, text_cmp_flip x.0 d.0, text_cmp_flip d.0 x.0)) s.0,
      rest,
    )
    placed rest Ordering.eq e =
        let above : NotBelow d x = λ k. ground arith in ((above, All-NotBelow d x xs above s.0), s)
    placed rest Ordering.gt e =
        let above : NotBelow d x = λ k. ground arith in ((above, All-NotBelow d x xs above s.0), s)

pub sort_newest_first-IsDescending : (ds : List Dated) → IsDescending (sort_newest_first ds)
unfolding sort_newest_first
sort_newest_first-IsDescending [] = tt
sort_newest_first-IsDescending (d ∷ ds) =
    insert_dated-IsDescending d (sort_newest_first ds) (sort_newest_first-IsDescending ds)

insert_dated-Perm : (d : Dated) (xs : List Dated) → Perm (insert_dated d xs) (d ∷ xs)
unfolding insert_dated
insert_dated-Perm d [] = Perm.refl (d ∷ [])
insert_dated-Perm d (x ∷ xs) =
    let rest = insert_dated-Perm d xs in
    elim (text_cmp d.0 x.0)
      as (λ o.
        Perm (elim o [ Ordering.lt ↦ x ∷ insert_dated d xs | _ ↦ d ∷ x ∷ xs ]) (d ∷ x ∷ xs)) [
          | Ordering.lt ↦ Perm.trans (Perm.cons x rest) (Perm.swap d x xs)
          | Ordering.eq ↦ Perm.refl (d ∷ x ∷ xs)
          | Ordering.gt ↦ Perm.refl (d ∷ x ∷ xs)
        ]

pub sort_newest_first-Perm : (ds : List Dated) → Perm (sort_newest_first ds) ds
unfolding sort_newest_first
sort_newest_first-Perm [] = Perm.refl []
sort_newest_first-Perm (d ∷ ds) =
    Perm.trans (insert_dated-Perm d (sort_newest_first ds))
      (Perm.cons d (sort_newest_first-Perm ds))

-- Cutting a descending list: all of the first part are as recent as all of the second.
pub take-NotBelow :
    (n : ℕ) (ds : List Dated)
    → IsDescending ds
    → All (λ x. All (NotBelow x) (drop n ds)) (take n ds)
take-NotBelow zero ds s = tt
take-NotBelow (suc n) [] s = tt
take-NotBelow (suc n) (d ∷ ds) s = (All-drop n ds s.0, take-NotBelow n ds s.1)
  where
    All-drop : (n : ℕ) (xs : List Dated) → All (NotBelow d) xs → All (NotBelow d) (drop n xs)
    All-drop zero xs a = a
    All-drop (suc n) [] a = tt
    All-drop (suc n) (x ∷ xs) a = All-drop n xs a.1

pub take-drop : (n : ℕ) (ds : List Dated) → take n ds ++ drop n ds ≡ ds
take-drop zero ds = refl
take-drop (suc n) [] = refl
take-drop (suc n) (d ∷ ds) = ap (λ l. d ∷ l) (take-drop n ds)

pub length-take :
    (n : ℕ) (ds : List Dated) (x : Dated) → Member x (drop n ds) → length (take n ds) ≡ n
length-take zero ds x m = refl
length-take (suc n) [] x m = absurd m
length-take (suc n) (d ∷ ds) x m = ap suc (length-take n ds x m)
