-- ===== src/Experiments/Matrix/Choices.antt =====
-- The rows of a grid: every way to choose a value for each axis, the first axis outermost.
use research_lab.Prelude.{
  ℕ, ◌*◌, ◌≤◌, ◌<◌, false, ltb, List, [], ◌∷◌, ◌++◌, map, length, length-append, length-map,
  map-append, append_assoc, append-nil, All, All-append, ◌≡◌, inl, inr, refl, sym, ap, subst, arith,
  if◌then◌else◌, Ordering, Bool-cases,
}
use research_lab.Prelude.Text.{Text, text_cmp, text_cmp_flip, text_lt_trans}
use research_lab.Prelude.Outcome.{RlabResult, ok, err}
use research_lab.Prelude.Assoc
use research_lab.Prelude.Assoc.{Assoc, insert}
use research_lab.Json.{Value}
use research_lab.Experiments.Matrix.{
  Axes, Row, checked_product, usize_limit, too_large, grid_size_from, extend_row, extend_rows,
  expand_from, with_capacity, row_capacity,
}
use native.Mathlib.Nat.{mul_assoc, mul-pos, mul-le-mul_left, mul-one}

abbrev pub pick : Text → List Value → List Row → List Row
pick axis [] rest = []
pick axis (v ∷ vs) rest = map (λ row. (axis, v) ∷ row) rest ++ pick axis vs rest

-- The rows, axis by axis from the first.
abbrev pub choices : Axes → List Row
choices [] = [] ∷ []
choices ((axis, values) ∷ axes) = pick axis values (choices axes)

-- How many there are.
abbrev pub size : Axes → ℕ
size [] = 1
size ((axis, values) ∷ axes) = length values * size axes

-- Every row continued by every choice.
pub onto : List Row → List Row → List Row
onto [] cs = []
onto (row ∷ rows) cs = map (λ c. row ++ c) cs ++ onto rows cs

onto-append : (xs ys cs : List Row) → onto (xs ++ ys) cs ≡ onto xs cs ++ onto ys cs
unfolding onto
onto-append [] ys cs = refl
onto-append (x ∷ xs) ys cs =
    rw (onto-append xs ys cs) (sym (append_assoc (map (λ c. x ++ c) cs) (onto xs cs) (onto ys cs)))

pub onto-nil : (cs : List Row) → onto ([] ∷ []) cs ≡ cs
unfolding onto
onto-nil [] = refl
onto-nil (c ∷ cs) = ap (λ l. c ∷ l) (onto-nil cs)

-- All keys of the row stand before the axis.
abbrev Before : Text → Row → Type 0
Before axis row = All (λ entry. text_cmp axis entry.0 ≡ Ordering.gt) row

insert_last :
    (axis : Text) (v : Value) (row : Row)
    → Before axis row
    → insert axis v row ≡ row ++ (axis, v) ∷ []
unfolding insert
insert_last axis v [] b = refl
insert_last axis v ((j, w) ∷ row) b = ground (arith, b.0, insert_last axis v row b.1)

map_continue :
    (axis : Text) (v : Value) (row : Row) (cs : List Row)
    → map (λ c. row ++ c) (map (λ c. (axis, v) ∷ c) cs) ≡ map (λ c. (row ++ (axis, v) ∷ []) ++ c) cs
map_continue axis v row [] = refl
map_continue axis v row (c ∷ cs) =
    rw (map_continue axis v row cs, append_assoc row ((axis, v) ∷ []) c) refl

onto-extend_row :
    (axis : Text) (values : List Value) (row : Row) (cs : List Row)
    → Before axis row
    → map (λ c. row ++ c) (pick axis values cs) ≡ onto (extend_row axis row values) cs
unfolding onto extend_row
onto-extend_row axis [] row cs b = refl
onto-extend_row axis (v ∷ vs) row cs b =
    rw
      (
        map-append (λ c. row ++ c) (map (λ c. (axis, v) ∷ c) cs) (pick axis vs cs),
        insert_last axis v row b,
        map_continue axis v row cs,
        onto-extend_row axis vs row cs b,
      )
      refl

onto-extend_rows :
    (axis : Text) (values : List Value) (rows cs : List Row)
    → All (Before axis) rows
    → onto rows (pick axis values cs) ≡ onto (extend_rows axis values rows) cs
unfolding onto extend_rows
onto-extend_rows axis values [] cs b = refl
onto-extend_rows axis values (row ∷ rows) cs b =
    rw
      (
        onto-append (extend_row axis row values) (extend_rows axis values rows) cs,
        onto-extend_row axis values row cs b.0,
        onto-extend_rows axis values rows cs b.1,
      )
      refl

Before-later :
    (axis later : Text) (row : Row)
    → text_cmp axis later ≡ Ordering.lt
    → Before axis row
    → Before later row
Before-later axis later [] lt b = tt
Before-later axis later ((j, w) ∷ row) lt b = (
  (text_cmp_flip later j).1 (text_lt_trans j axis later ((text_cmp_flip axis j).0 b.0) lt),
  Before-later axis later row lt b.1,
)

extend_row-Before :
    (axis later : Text) (row : Row) (values : List Value)
    → text_cmp axis later ≡ Ordering.lt
    → Before axis row
    → All (Before later) (extend_row axis row values)
unfolding extend_row
extend_row-Before axis later row [] lt b = tt
extend_row-Before axis later row (v ∷ vs) lt b = (
  subst (Before later) (sym (insert_last axis v row b)) (
      All-append (λ entry. text_cmp later entry.0 ≡ Ordering.gt) row ((axis, v) ∷ [])
        (Before-later axis later row lt b) ((text_cmp_flip later axis).1 lt, tt)),
  extend_row-Before axis later row vs lt b,
)

extend_rows-Before :
    (axis later : Text) (values : List Value) (rows : List Row)
    → text_cmp axis later ≡ Ordering.lt
    → All (Before axis) rows
    → All (Before later) (extend_rows axis values rows)
unfolding extend_rows
extend_rows-Before axis later values [] lt b = tt
extend_rows-Before axis later values (row ∷ rows) lt b =
    All-append (Before later) (extend_row axis row values) (extend_rows axis values rows)
      (extend_row-Before axis later row values lt b.0)
      (extend_rows-Before axis later values rows lt b.1)

length-extend_rows :
    (axis : Text) (values : List Value) (rows : List Row)
    → length (extend_rows axis values rows) ≡ length rows * length values
unfolding extend_rows extend_row
length-extend_rows axis values [] = omega arith
length-extend_rows axis values (row ∷ rows) = omega (
  arith,
  length-append (extend_row axis row values) (extend_rows axis values rows),
  length-map values (λ value. insert axis value row),
  length-extend_rows axis values rows,
)

-- The rows stand before the first axis.
abbrev pub Ready : Axes → List Row → Type 0
Ready [] rows = Unit
Ready ((axis, values) ∷ axes) rows = All (Before axis) rows

Ready-extend_rows :
    (axis : Text) (values : List Value) (axes : Axes) (rows : List Row)
    → Assoc.Above axis axes
    → All (Before axis) rows
    → Ready axes (extend_rows axis values rows)
Ready-extend_rows axis values [] rows a b = tt
Ready-extend_rows axis values ((later, vs) ∷ axes) rows a b =
    extend_rows-Before axis later values rows a b

onto_done : (rows : List Row) → onto rows ([] ∷ []) ≡ rows
unfolding onto
onto_done [] = refl
onto_done (row ∷ rows) = rw (append-nil row, onto_done rows) refl

size_pos : (axes : Axes) → All (λ (axis, values). 0 < length values) axes → 0 < size axes
size_pos [] h = omega arith
size_pos ((axis, values) ∷ axes) h = mul-pos h.0 (size_pos axes h.1)

product_le : (a b c n : ℕ) → 0 < c → a * (b * c) ≤ n → a * b ≤ n
product_le a b c n pos le =
    let whole : a * b * 1 ≤ a * b * c = mul-le-mul_left (a * b) pos in
    omega (arith, whole, le, mul-one (a * b), mul_assoc a b c)

product_fits : (a b : ℕ) → a * b ≤ row_capacity → checked_product a b too_large ≡ ok (a * b)
unfolding checked_product
product_fits a b le = ground arith

capacity_fits : (n : ℕ) → n ≤ row_capacity → with_capacity row_capacity n ≡ ok tt
unfolding with_capacity
capacity_fits n le = ground arith

-- What the loop makes, when all the rows fit.
pub expand_from-eq :
    (axes : Axes) (rows : List Row)
    → Assoc.IsSorted axes
    → All (λ (axis, values). 0 < length values) axes
    → length rows * size axes ≤ row_capacity
    → Ready axes rows
    → expand_from axes rows ≡ ok (onto rows (choices axes))
unfolding expand_from
expand_from-eq [] rows s h le b = rw (onto_done rows) refl
expand_from-eq ((axis, values) ∷ axes) rows s h le b =
    let here : length rows * length values ≤ row_capacity =
      product_le _ _ _ _ (size_pos axes h.1) le in
    let made = length-extend_rows axis values rows in
    let later : length (extend_rows axis values rows) * size axes ≤ row_capacity =
      rw (made, mul_assoc (length rows) (length values) (size axes)) le in
    rw
      (
        product_fits (length rows) (length values) here,
        capacity_fits (length rows * length values) here,
        onto-extend_rows axis values rows (choices axes) b,
        expand_from-eq axes (extend_rows axis values rows) s.1 h.1 later
            (Ready-extend_rows axis values axes rows s.0 b),
      )
      refl

-- `if b then ok n else err e`
abbrev pub within : ℕ → RlabResult ℕ
within n = if ltb n usize_limit then ok n else err too_large

pub grid_size_from-eq :
    (axes : Axes) (n : ℕ)
    → All (λ (axis, values). 0 < length values) axes
    → n < usize_limit
    → grid_size_from n axes ≡ within (n * size axes)
unfolding grid_size_from checked_product
grid_size_from-eq [] n h lt = rw (mul-one n) (ground arith)
grid_size_from-eq ((axis, values) ∷ axes) n h lt =
    elim (Bool-cases (ltb (n * length values) usize_limit)) [
      | inl t ↦
          rw (t, sym (mul_assoc n (length values) (size axes)))
            (grid_size_from-eq axes (n * length values) h.1 (ground arith))
      | inr t ↦
          let pos = size_pos axes h.1 in
          let le : n * length values * 1 ≤ n * length values * size axes =
            mul-le-mul_left (n * length values) (omega arith) in
          let large : ltb (n * length values * size axes) usize_limit ≡ false =
            ground (arith, mul-one (n * length values)) in
          rw (t, sym (mul_assoc n (length values) (size axes)), large) refl
    ]
