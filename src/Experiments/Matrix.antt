-- ===== src/Experiments/Matrix.antt =====
-- crates/rlab-core/src/experiments/matrix.rs: grids of parameters and sample spaces. A float is its
-- IEEE bit pattern. A list whose capacity does not fit the address space panics; otherwise the
-- memory that it asks for is taken to be there.
pub mod Usable
pub mod Choices
pub mod Expansion
use research_lab.Prelude.{
  ℕ, ◌*◌, ◌^◌, ◌/◌, ◌%◌, ◌-◌, Bool, true, false, ◌&&◌, ◌||◌, not, ◌==◌, ltb, leb, List, [], ◌∷◌,
  ◌++◌, map, length, if◌then◌else◌,
}
use research_lab.Prelude.Text.{Text, txt, text_eq, is_blank}
use research_lab.Prelude.Outcome.{
  RlabResult, ok, err, RlabError, validation, panic, format, ◌>>=◌, ◌>>◌, ensure, check_all,
}
use research_lab.Prelude.Assoc
use research_lab.Prelude.Assoc.{Assoc}
use research_lab.Prelude.Float.{is_finite, float_lt, float_le}
use research_lab.Json.{Value}

abbrev pub matrix_schema_version : ℕ
matrix_schema_version = 1

pub data Distribution : Type 0 where
  choice : List Value → Distribution
  uniform log_uniform : ℕ → ℕ → Distribution

abbrev pub Axes : Type 0
Axes = Assoc (List Value)

abbrev pub Row : Type 0
Row = Assoc Value

pub record Grid : Type 0 where
  pub schema_version : ℕ
  pub axes : Axes

pub record Sample : Type 0 where
  pub schema_version : ℕ
  pub space : Assoc Distribution
  pub n : ℕ
  pub seed : ℕ

is_empty : {A : Type 0} → List A → Bool
is_empty [] = true
is_empty (x ∷ xs) = false

validate_schema_version : Text → ℕ → RlabResult (Unit {0})
validate_schema_version kind v =
    ensure (v == matrix_schema_version)
      (validation (format "unsupported {} schema_version" (kind ∷ [])))

validate_axis_name : Text → Text → RlabResult (Unit {0})
validate_axis_name kind name =
    ensure (not (is_blank name)) (validation (format "{} axis name cannot be empty" (kind ∷ [])))

pub validate_axis : Text × List Value → RlabResult (Unit {0})
unfolding validate_axis_name is_empty
validate_axis (name, values) = do
  validate_axis_name (txt "matrix") name
  ensure (not (is_empty values)) (validation (format "matrix axis {} has no values" (name ∷ [])))

unfoldable pub validate_axes : Axes → RlabResult (Unit {0})
unfolding validate_axis
validate_axes axes = check_all validate_axis axes

validate_choice : List Value → RlabResult (Unit {0})
unfolding is_empty
validate_choice values =
    ensure (not (is_empty values))
      (validation (format "choice distribution requires at least one value" []))

validate_bounds : ℕ → ℕ → RlabResult (Unit {0})
validate_bounds low high =
    ensure (is_finite low && (is_finite high && float_lt low high))
      (validation (format "distribution bounds must be finite and low < high" []))

unfoldable pub validate_distribution : Distribution → RlabResult (Unit {0})
unfolding validate_choice validate_bounds
validate_distribution (choice values) = validate_choice values
validate_distribution (uniform low high) = validate_bounds low high
validate_distribution (log_uniform low high) = do
  validate_bounds low high
  ensure (not (float_le low 0)) (validation (format "log_uniform low bound must be positive" []))

unfoldable pub validate_sample : Sample → RlabResult (Unit {0})
unfolding validate_schema_version validate_axis_name validate_distribution
validate_sample s = do
  validate_schema_version (txt "sample") s.schema_version
  ensure (not (s.n == 0)) (validation (format "sample size must be greater than zero" []))
  check_all (λ (name, d). validate_axis_name (txt "sample") name >> validate_distribution d) s.space

-- `usize` has 64 bits.
abbrev pub usize_limit : ℕ
usize_limit = 2 ^ 64

abbrev pub too_large : RlabError
too_large = validation (format "matrix expansion is too large" [])

unfoldable pub checked_product : ℕ → ℕ → RlabError → RlabResult ℕ
checked_product left right message =
    if ltb (left * right) usize_limit then ok (left * right) else err message

-- How many items of that many bytes fit in `isize::MAX` bytes.
abbrev pub items_of : ℕ → ℕ
items_of bytes = (2 ^ 63 - 1) / bytes

-- A row is a map of 24 bytes.
abbrev pub row_capacity : ℕ
row_capacity = items_of 24

abbrev pub capacity_overflow : RlabError
capacity_overflow = panic (format "capacity overflow" [])

-- `Vec::with_capacity`, of which no more than the limit fit.
unfoldable pub with_capacity : ℕ → ℕ → RlabResult (Unit {0})
with_capacity limit capacity = ensure (leb capacity limit) capacity_overflow

-- The loop of `grid_size`.
unfoldable pub grid_size_from : ℕ → Axes → RlabResult ℕ
unfolding checked_product
grid_size_from size [] = ok size
grid_size_from size ((axis, values) ∷ axes) = do
  size' ← checked_product size (length values) too_large
  grid_size_from size' axes

unfoldable pub grid_size : Axes → RlabResult ℕ
unfolding grid_size_from
grid_size axes = grid_size_from 1 axes

-- The two inner loops of `expand_axes`.
unfoldable pub extend_row : Text → Row → List Value → List Row
extend_row axis row values = map (λ value. Assoc.insert axis value row) values

unfoldable pub extend_rows : Text → List Value → List Row → List Row
unfolding extend_row
extend_rows axis values [] = []
extend_rows axis values (row ∷ rows) = extend_row axis row values ++ extend_rows axis values rows

-- The outer loop.
unfoldable pub expand_from : Axes → List Row → RlabResult (List Row)
unfolding checked_product with_capacity extend_rows
expand_from [] rows = ok rows
expand_from ((axis, values) ∷ axes) rows = do
  capacity ← checked_product (length rows) (length values) too_large
  with_capacity row_capacity capacity
  expand_from axes (extend_rows axis values rows)

unfoldable pub expand_axes : Axes → RlabResult (List Row)
unfolding grid_size with_capacity expand_from
expand_axes axes = do
  capacity ← grid_size axes
  with_capacity row_capacity capacity
  expand_from axes ([] ∷ [])

-- `Grid::expand_axes`
unfoldable pub expand_valid_axes : Axes → RlabResult (List Row)
unfolding validate_axes expand_axes
expand_valid_axes axes = validate_axes axes >> expand_axes axes

-- `Grid::new`
unfoldable pub new_grid : Axes → RlabResult Grid
unfolding validate_axes
new_grid axes = do
  validate_axes axes
  ok (record { schema_version = matrix_schema_version; axes = axes })

-- `Grid::validate` and `Grid::expand`
unfoldable pub validate_grid : Grid → RlabResult (Unit {0})
unfolding validate_schema_version validate_axes
validate_grid g = validate_schema_version (txt "grid") g.schema_version >> validate_axes g.axes

unfoldable pub expand : Grid → RlabResult (List Row)
unfolding validate_grid expand_axes
expand g = validate_grid g >> expand_axes g.axes
