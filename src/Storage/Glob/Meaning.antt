-- ===== src/Storage/Glob/Meaning.antt =====
-- What a pattern matches.
use research_lab.Prelude.{
  ℕ, Bool, true, false, ◌&&◌, ◌==◌, ==_iff, List, [], ◌∷◌, map, ◌≡◌, ◌≢◌, ◌↔◌, inl, inr, refl, sym,
  subst, arith, Bool-cases,
}
use research_lab.Storage.Glob.{Bytes, first_cell, next_row, match_rows, last_cell, glob_match}
use research_lab.Storage.Glob.Cells.{
  Matches, Hit, Fits, last_cell-Hit, fill-Fits, star-Hit, other_byte-Hit,
}

-- The same property at every place gives the same hits.
Hit-map :
    (row : List Bool) (v : Bytes) {P Q : Bytes → Type 0}
    → ((w : Bytes) → P w → Q w)
    → Hit row v P
    → Hit row v Q
Hit-map [] v i h = h
Hit-map (b ∷ bs) [] i h = (h.0, i [] h.1)
Hit-map (b ∷ bs) (d ∷ v) i (inl h) = inl (h.0, i (d ∷ v) h.1)
Hit-map (b ∷ bs) (d ∷ v) i (inr h) = inr (Hit-map bs v i h)

first_true :
    (b l : Bool) (bs : List Bool) (v : Bytes) (P : Bytes → Type 0)
    → b ≡ l
    → Hit (b ∷ bs) v P
    → Hit (l ∷ bs) v P
first_true b l bs v P e h = subst (λ b. Hit (b ∷ bs) v P) e h

next_row-Hit :
    (p : ℕ) (pattern : Bytes) (row : List Bool) (v : Bytes)
    → Fits row v
    → Hit (next_row p row v) v (Matches pattern) ↔ Hit row v (Matches (p ∷ pattern))
unfolding next_row first_cell
next_row-Hit p pattern [] v f = absurd f
next_row-Hit p pattern (b ∷ bs) v f = elim (Bool-cases (p == b'*')) [
  | inl t ↦
      let star = (==_iff p b'*').0 t in
      let same : (p == b'*' && b) ≡ b = ground arith in
      let k = star-Hit p (Matches pattern) (p == b'*' && b) b bs v star f in
      (
        (λ h. Hit-map (b ∷ bs) v (λ w x. inl (star, x)) (first_true _ b bs v _ same (k.0 h))),
        (λ h. k.1 (
            first_true b _ bs v _ (sym same)
              (Hit-map (b ∷ bs) v (λ w x. elim x [ inl m ↦ m.1 | inr m ↦ absurd (m.0 star) ]) h))),
      )
  | inr t ↦
      let other : p ≢ b'*' = λ e. ground (arith, (==_iff p b'*').1 e) in
      let none_here : (p == b'*' && b) ≡ false = ground arith in
      let k = other_byte-Hit p (Matches pattern) (p == b'*' && b) (b ∷ bs) v other f in
      (
        (λ h. elim (k.0 h) [
          | inl m ↦ absurd (ground (arith, m.0))
          | inr m ↦ Hit-map (b ∷ bs) v (λ w x. inr (other, x)) m
        ]),
        (λ h. k.1 (
            inr
              (Hit-map (b ∷ bs) v (λ w x. elim x [ inl m ↦ absurd (other m.0) | inr m ↦ m.1 ]) h))),
      )
]

next_row-Fits : (p : ℕ) (row : List Bool) (v : Bytes) → Fits row v → Fits (next_row p row v) v
unfolding next_row
next_row-Fits p row v f = fill-Fits p (first_cell p row) row v f

match_rows-Hit :
    (pattern : Bytes) (row : List Bool) (v : Bytes)
    → Fits row v
    → (last_cell (match_rows pattern row v) ≡ true) ↔ Hit row v (Matches pattern)
unfolding match_rows
match_rows-Hit [] row v f = last_cell-Hit row v f
match_rows-Hit (p ∷ pattern) row v f =
    let rest = match_rows-Hit pattern (next_row p row v) v (next_row-Fits p row v f) in
    let step = next_row-Hit p pattern row v f in
    ((λ e. step.0 (rest.0 e)), (λ h. rest.1 (step.1 h)))

start-Fits : (b : Bool) (v : Bytes) → Fits (b ∷ map (λ v. false) v) v
start-Fits b [] = tt
start-Fits b (d ∷ v) = start-Fits false v

no-Hit : (v : Bytes) (P : Bytes → Type 0) → Hit (false ∷ map (λ v. false) v) v P → ⊥
no-Hit [] P h = cc (h.0)
no-Hit (d ∷ v) P (inl h) = cc (h.0)
no-Hit (d ∷ v) P (inr h) = no-Hit v P h

start-Hit : (v : Bytes) (P : Bytes → Type 0) → Hit (true ∷ map (λ v. false) v) v P ↔ P v
start-Hit [] P = ((λ h. h.1), (λ x. (refl, x)))
start-Hit (d ∷ v) P =
    ((λ h. elim h [ inl k ↦ k.1 | inr k ↦ absurd (no-Hit v P k) ]), (λ x. inl (refl, x)))

-- The table says that a pattern matches a value exactly if it does with `*` for any bytes, `?` for
-- any one byte and every other byte for itself.
pub glob_match_iff :
    (pattern value : Bytes) → (glob_match pattern value ≡ true) ↔ Matches pattern value
unfolding glob_match
glob_match_iff pattern value =
    let rows =
      match_rows-Hit pattern (true ∷ map (λ v. false) value) value (start-Fits true value) in
    let start = start-Hit value (Matches pattern) in
    ((λ e. start.0 (rows.0 e)), (λ m. rows.1 (start.1 m)))
