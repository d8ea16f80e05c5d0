-- ===== src/Documents/Inherit.antt =====
-- Loading a document through the documents that it extends: the recursion ends, and gives what
-- the chain of parents stands for.
use research_lab.Prelude.{
  ℕ, zero, suc, ◌+◌, ◌<◌, ◌≡◌, ◌↔◌, refl, ap, subst, ◌∙◌, ◌≢◌, Option, none, some, List, [], ◌∷◌,
  ◌++◌, arith, length, All, All-append, length-append, inl, inr,
}
use research_lab.Prelude.Text.{Text}
use research_lab.Prelude.Outcome.{RlabResult, ok, err, bind-eq-ok, RlabResult-cases}
use research_lab.Prelude.Assoc.{get}
use research_lab.Prelude.Distinct.{
  IsDistinct, IsDistinct-snoc, any-text_eq-false, any-text_eq-of_ne, Holds, length-le-length,
}
use research_lab.Json.{Value}
use research_lab.Documents.{
  Folder, merge, load, load_own, find_document, validate_document_name, validate_not_cyclic,
  remove_parent, merge_result,
}

-- What a document stands for: its own entries, merged over what its parent stands for. The number
-- counts the parents.
pub data Resolves (folder : Folder) : ℕ → Text → Value → Type 0 where
  own :
      {name : Text} {v : Value} (doc : Value)
      → validate_document_name name ≡ ok tt
      → get name folder ≡ some (ok doc)
      → remove_parent name doc ≡ ok (v, none)
      → Resolves folder zero name v
  extending :
      {name : Text} {v : Value} {n : ℕ} (doc current base : Value) (parent : Text)
      → validate_document_name name ≡ ok tt
      → get name folder ≡ some (ok doc)
      → remove_parent name doc ≡ ok (current, some parent)
      → Resolves folder n parent base
      → v ≡ merge base current
      → Resolves folder (suc n) name v

-- What a successful first half of `load` has checked.
abbrev Own : Folder → Text → List Text → Value → Option Text → Type 0
Own folder name stack current parent =
    All (λ y. y ≢ name) stack
    × (validate_document_name name ≡ ok tt)
    × (doc : Value) × (get name folder ≡ some (ok doc))
    × (remove_parent name doc ≡ ok (current, parent))

not_cyclic :
    (name : Text) (stack : List Text)
    → validate_not_cyclic name stack ≡ ok tt
    → All (λ y. y ≢ name) stack
unfolding validate_not_cyclic
not_cyclic name stack e = any-text_eq-false stack name (ground arith)

found_document :
    (folder : Folder) (name : Text) (file : RlabResult Value)
    → find_document folder name ≡ ok file
    → (validate_document_name name ≡ ok tt) × (get name folder ≡ some file)
unfolding find_document
found_document folder name file e =
    let (u, valid, e₁) = bind-eq-ok (validate_document_name name) _ e in (valid, ground arith)

load_own-Own :
    (folder : Folder) (name : Text) (stack : List Text) (current : Value) (parent : Option Text)
    → load_own folder name stack ≡ ok (current, parent)
    → Own folder name stack current parent
unfolding load_own
load_own-Own folder name stack current parent e =
    let (u, fresh, e₁) = bind-eq-ok (validate_not_cyclic name stack) _ e in
    let (file, found, e₂) = bind-eq-ok (find_document folder name) _ e₁ in
    let (doc, parsed, e₃) = bind-eq-ok file _ e₂ in
    let (valid, holds) = found_document folder name file found in
    (not_cyclic name stack fresh, valid, doc, cc, e₃)

load_total :
    (fuel : ℕ) (folder : Folder) (name : Text) (stack : List Text)
    → IsDistinct stack
    → All (Holds folder) stack
    → length folder < length stack + fuel
    → (r : RlabResult Value) × (load fuel folder name stack ≡ some r)
unfolding load
load_total zero folder name stack d h lt = absurd (omega (arith, length-le-length stack folder d h))
load_total (suc fuel) folder name stack d h lt =
    elim (RlabResult-cases (load_own folder name stack)) [
      | inl ((current, none), e) ↦ (ok current, rw (e, load))
      | inl ((current, some parent), e) ↦
          let (fresh, valid, doc, holds, removed) =
            load_own-Own folder name stack current (some parent) e in
          let (r, rest) =
            load_total fuel folder parent (stack ++ name ∷ []) (IsDistinct-snoc stack name d fresh)
              (All-append (Holds folder) stack (name ∷ []) h ((ok doc, holds), tt))
              (omega (arith, length-append stack (name ∷ []))) in
          (merge_result current r, rw (e, load) (rw rest))
      | inr (e, failed) ↦ (err e, rw (failed, load))
    ]

-- A document that loads has a parent that loads.
loaded_parent :
    (o : Option (RlabResult Value)) (current v : Value)
    → elim o [ none ↦ none | some base ↦ some (merge_result current base) ] ≡ some (ok v)
    → (base : Value) × (o ≡ some (ok base)) × (v ≡ merge base current)
loaded_parent none current v e = cc
loaded_parent (some (ok base)) current v e = (base, refl, cc)
loaded_parent (some (err e')) current v e = cc

load_sound :
    (fuel : ℕ) (folder : Folder) (name : Text) (stack : List Text) (v : Value)
    → load fuel folder name stack ≡ some (ok v)
    → (n : ℕ) × Resolves folder n name v
unfolding load
load_sound zero folder name stack v e = cc
load_sound (suc fuel) folder name stack v e = elim (RlabResult-cases (load_own folder name stack)) [
  | inl ((current, none), f) ↦
      let (fresh, valid, doc, holds, removed) = load_own-Own folder name stack current none f in
      (zero, own doc valid holds (ground arith))
  | inl ((current, some parent), f) ↦
      let (fresh, valid, doc, holds, removed) =
        load_own-Own folder name stack current (some parent) f in
      let (base, below, is_v) =
        loaded_parent (load fuel folder parent (stack ++ name ∷ [])) current v
          (rw (f, load) at e) in
      let (n, rest) = load_sound fuel folder parent (stack ++ name ∷ []) base below in
      (suc n, extending doc current base parent valid holds removed rest is_v)
  | inr (e', failed) ↦ ground arith
]

Own-load_own :
    (folder : Folder) (name : Text) (stack : List Text) (doc current : Value) (parent : Option Text)
    → All (λ y. y ≢ name) stack
    → validate_document_name name ≡ ok tt
    → get name folder ≡ some (ok doc)
    → remove_parent name doc ≡ ok (current, parent)
    → load_own folder name stack ≡ ok (current, parent)
unfolding load_own find_document validate_not_cyclic
Own-load_own folder name stack doc current parent fresh valid holds removed =
    ground (arith, any-text_eq-of_ne stack name fresh)

-- A name stands for one document at most, at one height.
Resolves-unique :
    (folder : Folder) (name : Text) {n k : ℕ} {v w : Value}
    → Resolves folder n name v
    → Resolves folder k name w
    → (n ≡ k) × (v ≡ w)
Resolves-unique folder name (own doc valid holds removed) (own doc' valid' holds' removed') =
    ground arith
Resolves-unique folder name (own doc valid holds removed)
      (extending doc' current base parent valid' holds' removed' below e) =
    ground arith
Resolves-unique folder name (extending doc current base parent valid holds removed below e)
      (own doc' valid' holds' removed') =
    ground arith
Resolves-unique folder name (extending {n = n} doc current base parent valid holds removed below e)
      (extending {n = k} doc' current' base' parent' valid' holds' removed' below' e') =
    let same : parent' ≡ parent = ground arith in
    let (h, b) =
      Resolves-unique folder parent below (subst (λ p. Resolves folder k p base') same below') in
    ground arith

-- The documents of the stack are higher than the one that is loaded.
abbrev Taller : Folder → ℕ → Text → Type 0
Taller folder n y = (k : ℕ) × (w : Value) × Resolves folder k y w × (n < k)

Taller-ne :
    (folder : Folder) (n : ℕ) (name : Text) (v : Value) (stack : List Text)
    → Resolves folder n name v
    → All (Taller folder n) stack
    → All (λ y. y ≢ name) stack
Taller-ne folder n name v [] r h = tt
Taller-ne folder n name v (y ∷ ys) r ((k, w, r', lt), hs) = (
  (λ e.
      absurd (
        omega
          (arith, (Resolves-unique folder name r (subst (λ z. Resolves folder k z w) e r')).0))),
  Taller-ne folder n name v ys r hs,
)

Taller-lower :
    (folder : Folder) (n : ℕ) (stack : List Text)
    → All (Taller folder (suc n)) stack
    → All (Taller folder n) stack
Taller-lower folder n [] h = tt
Taller-lower folder n (y ∷ ys) ((k, w, r, lt), hs) =
    ((k, w, r, omega arith), Taller-lower folder n ys hs)

loaded :
    (o : Option (RlabResult Value)) (current : Value) (r : RlabResult Value)
    → elim o [ none ↦ none | some base ↦ some (merge_result current base) ] ≡ some r
    → (r' : RlabResult Value) × (o ≡ some r') × (r ≡ merge_result current r')
loaded none current r e = cc
loaded (some r') current r e = (r', refl, cc)

load_complete :
    (fuel : ℕ) (folder : Folder) (name : Text) (stack : List Text) (v : Value)
    (r : RlabResult Value) {n : ℕ}
    → All (Taller folder n) stack
    → load fuel folder name stack ≡ some r
    → Resolves folder n name v
    → r ≡ ok v
unfolding load
load_complete zero folder name stack v r h e res = cc
load_complete (suc fuel) folder name stack v r h e (own doc valid holds removed) =
    let fresh = Taller-ne folder zero name v stack (own doc valid holds removed) h in
    let step = Own-load_own folder name stack doc v none fresh valid holds removed in
    ground (arith, step)
load_complete (suc fuel) folder name stack v r h e
      (extending {n = n} doc current base parent valid holds removed below is_v) =
    let here = extending doc current base parent valid holds removed below is_v in
    let fresh = Taller-ne folder (suc n) name v stack here h in
    let step = Own-load_own folder name stack doc current (some parent) fresh valid holds removed in
    let (r', rest, is_r) =
      loaded (load fuel folder parent (stack ++ name ∷ [])) current r (rw (step, load) at e) in
    let stack' : All (Taller folder n) (stack ++ name ∷ []) =
      All-append (Taller folder n) stack (name ∷ []) (Taller-lower folder n stack h)
        ((suc n, v, here, omega arith), tt) in
    let is_ok = load_complete fuel folder parent (stack ++ name ∷ []) base r' stack' rest below in
    rw (is_r, is_ok, is_v)

-- Loading a document always ends, within one step more than there are files, and it gives a value
-- exactly when the chain of parents from the document reaches one that extends nothing, all of
-- them readable mappings with valid names: the documents of the chain, each merged over its
-- parent. A chain that comes back to a document is refused.
pub load_lem :
    (folder : Folder) (name : Text) (v : Value)
    → (r : RlabResult Value) × (load (suc (length folder)) folder name [] ≡ some r)
      × ((r ≡ ok v) ↔ ((n : ℕ) × Resolves folder n name v))
load_lem folder name v =
    let (r, e) = load_total (suc (length folder)) folder name [] tt tt (omega arith) in
    (
      r,
      e,
      (
        (λ is_ok. load_sound (suc (length folder)) folder name [] v (e ∙ ap some is_ok)),
        (λ (n, res). load_complete (suc (length folder)) folder name [] v r tt e res),
      ),
    )
