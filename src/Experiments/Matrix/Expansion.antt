-- ===== src/Experiments/Matrix/Expansion.antt =====
-- When a grid expands, and what its rows are.
use research_lab.Prelude.{
  ℕ, ◌*◌, ◌<◌, ◌≤◌, ltb, leb, true, false, List, [], ◌∷◌, ◌++◌, map, length, length-append,
  length-map, Member, Member-append, ◌≡◌, ◌↔◌, inl, inr, refl, sym, ap, subst, ◌∙◌, arith,
  Bool-cases, All,
}
use research_lab.Prelude.Text.{Text, txt, is_blank}
use research_lab.Prelude.Outcome.{RlabResult, RlabError, ok, err, validation, format}
use research_lab.Prelude.Assoc
use research_lab.Json.{Value}
use research_lab.Experiments.Matrix.{
  Axes, Row, usize_limit, too_large, row_capacity, capacity_overflow, with_capacity, grid_size,
  grid_size_from, expand_axes, expand_valid_axes,
}
use research_lab.Experiments.Matrix.Usable.{IsUsable, Refused, full_axes, validate_axes_lem}
use research_lab.Experiments.Matrix.Choices.{
  choices, pick, size, within, Ready, expand_from-eq, grid_size_from-eq, onto-nil,
}

one_mul : (n : ℕ) → 1 * n ≡ n
one_mul n = omega arith

-- What expanding the axes gives. The axes are refused for the first of them that is not usable;
-- or they are all usable, and their number of rows decides.
pub data Expands (axes : Axes) : RlabResult (List Row) → Type 0 where
  blank :
      (before after : Axes) (name : Text) (values : List Value)
      → axes ≡ before ++ (name, values) ∷ after
      → All IsUsable before
      → is_blank name ≡ true
      → Expands axes (err (validation (format "{} axis name cannot be empty" (txt "matrix" ∷ []))))
  empty :
      (before after : Axes) (name : Text)
      → axes ≡ before ++ (name, []) ∷ after
      → All IsUsable before
      → is_blank name ≡ false
      → Expands axes (err (validation (format "matrix axis {} has no values" (name ∷ []))))
  too_many : All IsUsable axes → usize_limit ≤ size axes → Expands axes (err too_large)
  panics :
      All IsUsable axes
      → row_capacity < size axes
      → size axes < usize_limit
      → Expands axes (err capacity_overflow)
  all_choices : All IsUsable axes → size axes ≤ row_capacity → Expands axes (ok (choices axes))

expand_axes-Expands :
    (axes : Axes) → Assoc.IsSorted axes → All IsUsable axes → Expands axes (expand_axes axes)
unfolding expand_axes grid_size with_capacity
expand_axes-Expands axes s usable =
    let full = full_axes axes usable in
    let counted : grid_size_from 1 axes ≡ within (size axes) =
      grid_size_from-eq axes 1 full (omega arith) ∙ ap within (one_mul (size axes)) in
    elim (Bool-cases (ltb (size axes) usize_limit)) [
      | inr f ↦ rw (counted, f) (too_many usable (ground arith))
      | inl t ↦ elim (Bool-cases (leb (size axes) row_capacity)) [
        | inr g ↦ rw (counted, t, g) (panics usable (ground arith) (ground arith))
        | inl fits ↦
            let le : size axes ≤ row_capacity = ground arith in
            rw
              (
                counted,
                t,
                fits,
                expand_from-eq axes ([] ∷ []) s full (omega (arith, le)) (ready axes),
                onto-nil (choices axes),
              )
              (all_choices usable le)
      ]
    ]
  where
    ready : (axes : Axes) → Ready axes ([] ∷ [])
    ready [] = tt
    ready (a ∷ axes) = (tt, tt)

Refused-Expands : (axes : Axes) (e : RlabError) → Refused axes e → Expands axes (err e)
Refused-Expands axes e (before, after, name, values, split, all, inl (t, why)) =
    rw why (blank before after name values split all t)
Refused-Expands axes e (before, after, name, values, split, all, inr (f, none_left, why)) =
    rw why
      (empty before after name (split ∙ ap (λ vs. before ++ (name, vs) ∷ after) none_left) all f)

-- Expanding the axes of a grid, whose names are ascending as in any map. If some axis has a blank
-- name or no values, the first of these is refused, for its name before its values. Otherwise the
-- grid is refused if it has 2 ^ 64 rows or more; it panics if it has fewer, but more than fit in
-- the address space at 24 bytes each; and else the rows are all choices of a value for each axis,
-- the first axis outermost.
pub expand_valid_axes_lem :
    (axes : Axes) → Assoc.IsSorted axes → Expands axes (expand_valid_axes axes)
unfolding expand_valid_axes
expand_valid_axes_lem axes s = elim (validate_axes_lem axes) [
  | inl (e, usable) ↦ rw e (expand_axes-Expands axes s usable)
  | inr (x, e, why) ↦ rw e (Refused-Expands axes x why)
]

Expands-ok :
    (axes : Axes) (r : RlabResult (List Row)) (rows : List Row)
    → Expands axes r
    → r ≡ ok rows
    → (choices axes ≡ rows) × (size axes ≤ row_capacity)
Expands-ok axes r rows (blank _ _ _ _ _ _ _) e = cc e
Expands-ok axes r rows (empty _ _ _ _ _ _) e = cc e
Expands-ok axes r rows (too_many _ _) e = cc e
Expands-ok axes r rows (panics _ _ _) e = cc e
Expands-ok axes r rows (all_choices _ le) e = (cc e, le)

pub expand_valid_axes-choices :
    (axes : Axes) (rows : List Row)
    → Assoc.IsSorted axes
    → expand_valid_axes axes ≡ ok rows
    → rows ≡ choices axes
expand_valid_axes-choices axes rows s e =
    sym (Expands-ok axes _ rows (expand_valid_axes_lem axes s) e).0

-- The row has the axes' names and, under each, one of the axis's values.
abbrev pub Chooses : Axes → Row → Type 0
Chooses [] [] = Unit
Chooses [] (entry ∷ row) = ⊥
Chooses (axis ∷ axes) [] = ⊥
Chooses ((axis, values) ∷ axes) ((k, v) ∷ row) = (k ≡ axis) × Member v values × Chooses axes row

Member-prefix :
    (axis : Text) (v : Value) (row : Row) (rest : List Row)
    → Member row (map (λ r. (axis, v) ∷ r) rest)
    → (r : Row) × (row ≡ (axis, v) ∷ r) × Member r rest
Member-prefix axis v row [] m = absurd m
Member-prefix axis v row (r ∷ rest) (inl e) = (r, e, inl refl)
Member-prefix axis v row (r ∷ rest) (inr m) =
    let (q, e, k) = Member-prefix axis v row rest m in (q, e, inr k)

prefix-Member :
    (axis : Text) (v : Value) (r : Row) (rest : List Row)
    → Member r rest
    → Member ((axis, v) ∷ r) (map (λ r. (axis, v) ∷ r) rest)
prefix-Member axis v r [] m = absurd m
prefix-Member axis v r (q ∷ rest) (inl e) = inl (ap (λ r. (axis, v) ∷ r) e)
prefix-Member axis v r (q ∷ rest) (inr m) = inr (prefix-Member axis v r rest m)

Member-pick :
    (axis : Text) (values : List Value) (row : Row) (rest : List Row)
    → Member row (pick axis values rest)
    → (v : Value) × (r : Row) × (row ≡ (axis, v) ∷ r) × Member v values × Member r rest
Member-pick axis [] row rest m = absurd m
Member-pick axis (v ∷ vs) row rest m =
    elim ((Member-append row (map (λ r. (axis, v) ∷ r) rest) (pick axis vs rest)).0 m) [
      | inl k ↦ let (r, e, here) = Member-prefix axis v row rest k in (v, r, e, inl refl, here)
      | inr k ↦
          let (w, r, e, here, there) = Member-pick axis vs row rest k in (w, r, e, inr here, there)
    ]

pick-Member :
    (axis : Text) (values : List Value) (v : Value) (r : Row) (rest : List Row)
    → Member v values
    → Member r rest
    → Member ((axis, v) ∷ r) (pick axis values rest)
pick-Member axis [] v r rest k m = absurd k
pick-Member axis (w ∷ vs) v r rest (inl e) m =
    (Member-append _ (map (λ r. (axis, w) ∷ r) rest) (pick axis vs rest)).1 (
      inl (
        subst (λ u. Member ((axis, u) ∷ r) (map (λ r. (axis, w) ∷ r) rest)) (sym e)
          (prefix-Member axis w r rest m)))
pick-Member axis (w ∷ vs) v r rest (inr k) m =
    (Member-append _ (map (λ r. (axis, w) ∷ r) rest) (pick axis vs rest)).1
      (inr (pick-Member axis vs v r rest k m))

pub choices-Chooses : (axes : Axes) (row : Row) → Member row (choices axes) → Chooses axes row
choices-Chooses [] row (inl e) = subst (Chooses []) (sym e) tt
choices-Chooses [] row (inr m) = absurd m
choices-Chooses ((axis, values) ∷ axes) row m =
    let (v, r, e, here, there) = Member-pick axis values row (choices axes) m in
    subst (Chooses ((axis, values) ∷ axes)) (sym e) (refl, here, choices-Chooses axes r there)

Chooses-choices : (axes : Axes) (row : Row) → Chooses axes row → Member row (choices axes)
Chooses-choices [] [] c = inl refl
Chooses-choices [] (entry ∷ row) c = absurd c
Chooses-choices (axis ∷ axes) [] c = absurd c
Chooses-choices ((axis, values) ∷ axes) ((k, v) ∷ row) (e, here, c) =
    subst (λ n. Member ((n, v) ∷ row) (choices ((axis, values) ∷ axes))) (sym e)
      (pick-Member axis values v row (choices axes) here (Chooses-choices axes row c))

length-pick :
    (axis : Text) (values : List Value) (rest : List Row)
    → length (pick axis values rest) ≡ length values * length rest
length-pick axis [] rest = omega arith
length-pick axis (v ∷ vs) rest = omega (
  arith,
  length-append (map (λ r. (axis, v) ∷ r) rest) (pick axis vs rest),
  length-map rest (λ r. (axis, v) ∷ r),
  length-pick axis vs rest,
)

pub length-choices : (axes : Axes) → length (choices axes) ≡ size axes
length-choices [] = refl
length-choices ((axis, values) ∷ axes) =
    length-pick axis values (choices axes) ∙ ap (length values *◌) (length-choices axes)

-- A grid that expands gives as many rows as the product of the numbers of values, less than 2 ^ 64,
-- and a row is among them exactly if it chooses one of the values of each axis.
pub expand_valid_axes-rows :
    (axes : Axes) (rows : List Row) (row : Row)
    → Assoc.IsSorted axes
    → expand_valid_axes axes ≡ ok rows
    → (length rows ≡ size axes) × (length rows < usize_limit) × (Member row rows ↔ Chooses axes row)
expand_valid_axes-rows axes rows row s e =
    let (same, le) = Expands-ok axes _ rows (expand_valid_axes_lem axes s) e in
    subst
      (λ rows.
        (length rows ≡ size axes)
        × (length rows < usize_limit)
        × (Member row rows ↔ Chooses axes row))
      same
      (
        length-choices axes,
        omega (arith, length-choices axes, le),
        (choices-Chooses axes row, Chooses-choices axes row),
      )
