-- ===== src/Storage/Glob.antt =====
-- `glob_match` of run/storage.rs, and `wildcard_match` of run/query.rs with the same text: a table
-- whose cell (row, col) says whether the first `row` bytes of the pattern match the first `col`
-- bytes of the value. A row is filled from the one before it.
pub mod Cells
pub mod Meaning
use research_lab.Prelude.{ℕ, Bool, true, false, ◌&&◌, ◌||◌, ◌==◌, List, [], ◌∷◌, map, if◌then◌else◌}

abbrev pub Bytes : Type 0
Bytes = List ℕ

-- The cell from those up-left, up and left of it.
pub cell : ℕ → ℕ → Bool → Bool → Bool → Bool
cell p v up_left up left =
    if p == b'*' then up || left else if p == b'?' then up_left else p == v && up_left

-- The cells of a row after the first; `left` is the cell before them.
pub fill : ℕ → Bool → List Bool → Bytes → List Bool
unfolding cell
fill p left (up_left ∷ up ∷ previous) (v ∷ value) =
    let here = cell p v up_left up left in here ∷ fill p here (up ∷ previous) value
fill p left previous value = []

pub first_cell : ℕ → List Bool → Bool
first_cell p [] = false
first_cell p (above ∷ previous) = p == b'*' && above

pub next_row : ℕ → List Bool → Bytes → List Bool
unfolding fill first_cell
next_row p previous value = let first = first_cell p previous in first ∷ fill p first previous value

-- The loop over the rows, from the row before them.
pub match_rows : Bytes → List Bool → Bytes → List Bool
unfolding next_row
match_rows [] row value = row
match_rows (p ∷ pattern) row value = match_rows pattern (next_row p row value) value

pub last_cell : List Bool → Bool
last_cell [] = false
last_cell (b ∷ []) = b
last_cell (b ∷ c ∷ bs) = last_cell (c ∷ bs)

unfoldable pub glob_match : Bytes → Bytes → Bool
unfolding match_rows last_cell
glob_match pattern value = last_cell (match_rows pattern (true ∷ map (λ v. false) value) value)
