-- ===== src/Storage/Glob/Cells.antt =====
-- What the cells of a row say of the rest of the value, and how a row makes the next.
use research_lab.Prelude.{
  ℕ, Bool, true, false, ◌||◌, ==_iff, List, [], ◌∷◌, ◌≡◌, ◌≢◌, ◌↔◌, ◌⊎◌, inl, inr, refl, subst,
  arith,
}
use research_lab.Storage.Glob.{Bytes, cell, fill, last_cell}

-- Some end of the value has the property.
abbrev pub Suffix : (Bytes → Type 0) → Bytes → Type 0
Suffix P [] = P []
Suffix P (d ∷ v) = P (d ∷ v) ⊎ Suffix P v

-- The first byte is any (for `?`) or the one given, and the rest has the property.
abbrev pub One : ℕ → (Bytes → Type 0) → Bytes → Type 0
One c P [] = ⊥
One c P (d ∷ v) = ((c ≡ b'?') ⊎ (c ≡ d)) × P v

-- `*` stands for any bytes, `?` for any one byte, every other byte for itself.
abbrev pub Matches : Bytes → Bytes → Type 0
Matches [] value = value ≡ []
Matches (c ∷ pattern) value =
    ((c ≡ b'*') × Suffix (Matches pattern) value) ⊎ ((c ≢ b'*') × One c (Matches pattern) value)

-- The row has a true cell at whose place the rest of the value has the property.
abbrev pub Hit : List Bool → Bytes → (Bytes → Type 0) → Type 0
Hit [] v P = ⊥
Hit (b ∷ bs) [] P = (b ≡ true) × P []
Hit (b ∷ bs) (d ∷ v) P = ((b ≡ true) × P (d ∷ v)) ⊎ Hit bs v P

-- The row has a cell for each place of the value.
abbrev pub Fits : List Bool → Bytes → Type 0
Fits [] v = ⊥
Fits (b ∷ []) [] = Unit
Fits (b ∷ c ∷ bs) [] = ⊥
Fits (b ∷ bs) (d ∷ v) = Fits bs v

not_nil : {d : ℕ} {v : Bytes} → d ∷ v ≡ [] → ⊥
not_nil e = ground arith

pub last_cell-Hit :
    (row : List Bool) (v : Bytes) → Fits row v → (last_cell row ≡ true) ↔ Hit row v (λ w. w ≡ [])
unfolding last_cell
last_cell-Hit [] v f = absurd f
last_cell-Hit (b ∷ []) [] f = (λ e. (e, refl), λ h. h.0)
last_cell-Hit (b ∷ c ∷ bs) [] f = absurd f
last_cell-Hit (b ∷ []) (d ∷ v) f = absurd f
last_cell-Hit (b ∷ c ∷ bs) (d ∷ v) f = (
  λ e. inr ((last_cell-Hit (c ∷ bs) v f).0 e),
  λ h. elim h [ inl (t, e) ↦ absurd (not_nil e) | inr k ↦ (last_cell-Hit (c ∷ bs) v f).1 k ],
)

pub fill-Fits :
    (p : ℕ) (left : Bool) (row : List Bool) (v : Bytes)
    → Fits row v
    → Fits (left ∷ fill p left row v) v
unfolding fill
fill-Fits p left [] v f = absurd f
fill-Fits p left (b ∷ []) [] f = tt
fill-Fits p left (b ∷ c ∷ bs) [] f = absurd f
fill-Fits p left (b ∷ []) (d ∷ v) f = absurd f
fill-Fits p left (b ∷ c ∷ bs) (d ∷ v) f = fill-Fits p (cell p d b c left) (c ∷ bs) v f

-- A `*` row: true from the first true cell on.
pub star-Hit :
    (p : ℕ) (P : Bytes → Type 0) (left b : Bool) (bs : List Bool) (v : Bytes)
    → p ≡ b'*'
    → Fits (b ∷ bs) v
    → Hit (left ∷ fill p left (b ∷ bs) v) v P ↔ Hit (left ∷ bs) v (Suffix P)
unfolding fill cell
star-Hit p P left b [] [] s f = (λ h. h, λ h. h)
star-Hit p P left b (c ∷ bs) [] s f = absurd f
star-Hit p P left b [] (d ∷ v) s f = absurd f
star-Hit p P left b (c ∷ bs) (d ∷ v) s f =
    let next = star-Hit p P (cell p d b c left) c bs v s f in
    let here : cell p d b c left ≡ (c || left) = ground arith in
    (
      λ h. elim h [ inl (t, x) ↦ inl (t, inl x) | inr k ↦ back left c bs v here (next.0 k) ],
      λ h. elim h [
        | inl (t, inl x) ↦ inl (t, x)
        | inl (t, inr x) ↦ inr (next.1 (enter (cell p d b c left) bs v (ground arith) x))
        | inr k ↦ inr (next.1 (widen c (cell p d b c left) bs v (λ e. ground arith) k))
      ],
    )
  where
    enter :
        (l : Bool) (bs : List Bool) (v : Bytes) → l ≡ true → Suffix P v → Hit (l ∷ bs) v (Suffix P)
    enter l bs [] e x = (e, x)
    enter l bs (d ∷ v) e x = inl (e, x)

    widen :
        (c l : Bool) (bs : List Bool) (v : Bytes)
        → (c ≡ true → l ≡ true)
        → Hit (c ∷ bs) v (Suffix P)
        → Hit (l ∷ bs) v (Suffix P)
    widen c l bs [] i h = (i h.0, h.1)
    widen c l bs (d ∷ v) i (inl h) = inl (i h.0, h.1)
    widen c l bs (d ∷ v) i (inr h) = inr h

    back :
        {d : ℕ} {l : Bool} (left c : Bool) (bs : List Bool) (v : Bytes)
        → l ≡ (c || left)
        → Hit (l ∷ bs) v (Suffix P)
        → ((left ≡ true) × Suffix P (d ∷ v)) ⊎ Hit (c ∷ bs) v (Suffix P)
    back left true bs v e h = inr (subst (λ l. Hit (l ∷ bs) v (Suffix P)) e h)
    back true false bs [] e h = inl (refl, inr h.1)
    back true false bs (d ∷ v) e (inl h) = inl (refl, inr h.1)
    back true false bs (d ∷ v) e (inr h) = inr (inr h)
    back false false bs v e h = inr (subst (λ l. Hit (l ∷ bs) v (Suffix P)) e h)

cell_one :
    (p d : ℕ) (b c left : Bool)
    → p ≢ b'*'
    → (cell p d b c left ≡ true) ↔ ((b ≡ true) × ((p ≡ b'?') ⊎ (p ≡ d)))
unfolding cell
cell_one p d b c left s = ground (arith, ==_iff p d)

-- A row of another byte: each true cell moves on by one if the byte fits.
pub other_byte-Hit :
    (p : ℕ) (P : Bytes → Type 0) (left : Bool) (row : List Bool) (v : Bytes)
    → p ≢ b'*'
    → Fits row v
    → Hit (left ∷ fill p left row v) v P ↔ (((left ≡ true) × P v) ⊎ Hit row v (One p P))
unfolding fill
other_byte-Hit p P left [] v s f = absurd f
other_byte-Hit p P left (b ∷ []) [] s f =
    (λ h. inl h, λ h. elim h [ inl k ↦ k | inr k ↦ absurd k.1 ])
other_byte-Hit p P left (b ∷ c ∷ bs) [] s f = absurd f
other_byte-Hit p P left (b ∷ []) (d ∷ v) s f = absurd f
other_byte-Hit p P left (b ∷ c ∷ bs) (d ∷ v) s f =
    let here = cell_one p d b c left s in
    let next = other_byte-Hit p P (cell p d b c left) (c ∷ bs) v s f in
    (
      λ h. elim h [
        | inl k ↦ inl k
        | inr k ↦ elim (next.0 k) [
          | inl (t, x) ↦ let (b_true, fits) = here.0 t in inr (inl (b_true, (fits, x)))
          | inr m ↦ inr (inr m)
        ]
      ],
      λ h. elim h [
        | inl k ↦ inl k
        | inr (inl (b_true, (fits, x))) ↦ inr (next.1 (inl (here.1 (b_true, fits), x)))
        | inr (inr m) ↦ inr (next.1 (inr m))
      ],
    )
