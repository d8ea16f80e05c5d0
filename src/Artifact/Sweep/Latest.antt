-- ===== src/Artifact/Sweep/Latest.antt =====
-- The latest row of a reference: sorting the rows and collecting them by reference keeps it.
use research_lab.Prelude.{
  ◌≡◌, refl, ap, ◌∙◌, ◌↔◌, Bool, true, false, Option, none, some, List, [], ◌∷◌, arith, Ordering,
  find, if◌then◌else◌,
}
use research_lab.Prelude.Text.{text_cmp_eq}
use research_lab.Artifact.Reference.{ArtifactReference}
use research_lab.Artifact.Layout.{ArtifactManifest}
use research_lab.Artifact.Lookup.{compare_references, insert_row, sort_rows}
use research_lab.Artifact.Sweep.{insert_latest, latest_rows}

abbrev pub is_for : ArtifactReference → ArtifactManifest → Bool
is_for r m = elim (compare_references r m.reference) [ Ordering.eq ↦ true | _ ↦ false ]

-- The last row of a reference.
abbrev pub latest_for : ArtifactReference → List ArtifactManifest → Option ArtifactManifest
latest_for r [] = none
latest_for r (m ∷ ms) = elim (latest_for r ms) [
  | none ↦ if is_for r m then some m else none
  | some n ↦ some n
]

-- Two references compare as equal exactly when they are.
pub compare_references_iff :
    (a b : ArtifactReference)
    → (compare_references a b ≡ Ordering.eq)
      ↔ ((a.kind ≡ b.kind) × (a.name ≡ b.name) × (a.version ≡ b.version))
unfolding compare_references
compare_references_iff a b =
    ground
      (arith, text_cmp_eq a.kind b.kind, text_cmp_eq a.name b.name, text_cmp_eq a.version b.version)

latest_for-insert_row :
    (r : ArtifactReference) (m : ArtifactManifest) (xs : List ArtifactManifest)
    → latest_for r (insert_row m xs) ≡ latest_for r (m ∷ xs)
unfolding insert_row
latest_for-insert_row r m [] = refl
latest_for-insert_row r m (x ∷ xs) = ground (
  arith,
  latest_for-insert_row r m xs,
  compare_references_iff r m.reference,
  compare_references_iff r x.reference,
  compare_references_iff m.reference x.reference,
)

pub latest_for-sort_rows :
    (r : ArtifactReference) (ms : List ArtifactManifest)
    → latest_for r (sort_rows ms) ≡ latest_for r ms
unfolding sort_rows
latest_for-sort_rows r [] = refl
latest_for-sort_rows r (m ∷ ms) =
    latest_for-insert_row r m (sort_rows ms)
    ∙ ap (λ o. elim o [ none ↦ if is_for r m then some m else none | some n ↦ some n ])
        (latest_for-sort_rows r ms)

find-insert_latest :
    (r : ArtifactReference) (m : ArtifactManifest) (xs : List ArtifactManifest)
    → find (is_for r) (insert_latest m xs) ≡ (if is_for r m then some m else find (is_for r) xs)
unfolding insert_latest
find-insert_latest r m [] = refl
find-insert_latest r m (x ∷ xs) = ground (
  arith,
  find-insert_latest r m xs,
  compare_references_iff r m.reference,
  compare_references_iff r x.reference,
  compare_references_iff m.reference x.reference,
)

pub find-latest_rows :
    (r : ArtifactReference) (ms xs : List ArtifactManifest)
    → find (is_for r) (latest_rows ms xs)
      ≡ elim (latest_for r ms) [ none ↦ find (is_for r) xs | some n ↦ some n ]
unfolding latest_rows
find-latest_rows r [] xs = refl
find-latest_rows r (m ∷ ms) xs =
    ground (arith, find-latest_rows r ms (insert_latest m xs), find-insert_latest r m xs)
