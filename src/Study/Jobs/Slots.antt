-- ===== src/Study/Jobs/Slots.antt =====
-- The jobs of a study, each by what it comes from: a case, a row of the matrix of its experiment, a row
-- of the study's axes, a variant and a seed.
use research_lab.Prelude.{
  ℕ, suc, ◌+◌, ◌*◌, false, Option, some, List, [], ◌∷◌, ◌++◌, map, length, append_assoc, append-nil,
  ◌≡◌, refl, sym, ◌∙◌,
}
use research_lab.Prelude.Text.{Text}
use research_lab.Prelude.Outcome.{RlabResult, ok, ◌>>=◌}
use research_lab.Prelude.Assoc.{Assoc}
use research_lab.Json.{Value}
use research_lab.Documents.{apply_dotted_overrides}
use research_lab.Experiments.Matrix.{Row}
use research_lab.Experiments.Matrix.Choices.{choices}
use research_lab.Experiments.Planner.{ExperimentJob}
use research_lab.Study.{
  StudyMode, qualification, full, ExperimentDesign, StudyDesign, ExperimentCase, Qualification,
  apply_declared_overrides_value, apply_runtime_overrides_value, value_to_params, base_params_value,
  effective_full_seeds, variant_rows,
}

-- What a job comes from.
pub record Slot : Type 0 where
  pub design : ExperimentDesign
  pub case : ExperimentCase
  pub experiment_row : Row
  pub study_row : Row
  pub variant : Option Text × Assoc Value
  pub cell : ℕ
  pub seed : Option ℕ

module _ {A B : Type 0} (R : A → B → Type 0) where
  -- The lists have the same length, and their elements are related place by place.
  abbrev pub Pairwise : List A → List B → Type 0
  Pairwise [] [] = Unit
  Pairwise [] (y ∷ ys) = ⊥
  Pairwise (x ∷ xs) [] = ⊥
  Pairwise (x ∷ xs) (y ∷ ys) = R x y × Pairwise xs ys

  Pairwise-append :
      (xs xs' : List A) (ys ys' : List B)
      → Pairwise xs ys
      → Pairwise xs' ys'
      → Pairwise (xs ++ xs') (ys ++ ys')
  Pairwise-append [] xs' [] ys' h h' = h'
  Pairwise-append [] xs' (y ∷ ys) ys' h h' = absurd h
  Pairwise-append (x ∷ xs) xs' [] ys' h h' = absurd h
  Pairwise-append (x ∷ xs) xs' (y ∷ ys) ys' h h' = (h.0, Pairwise-append xs xs' ys ys' h.1 h')

  -- What a list is extended by.
  abbrev pub Adds : List A → List B → List B → Type 0
  Adds xs old made = (new : List B) × (made ≡ old ++ new) × Pairwise xs new

  pub Adds-nothing : (old made : List B) → old ≡ made → Adds [] old made
  Adds-nothing old made e = ([], sym e ∙ sym (append-nil old), tt)

  pub Adds-then :
      (xs xs' : List A) (a b c : List B) → Adds xs a b → Adds xs' b c → Adds (xs ++ xs') a c
  Adds-then xs xs' a b c (new, e, h) (new', e', h') =
      (new ++ new', rw (e', e, append_assoc a new new') refl, Pairwise-append xs xs' new new' h h')

module _ (study : StudyDesign) (mode : StudyMode) (qualified : Qualification)
    (default_params explicit_params : Assoc Value) where
  -- The parameters that the qualification changes, in its mode.
  abbrev pub by_mode : StudyMode → Value → Value
  by_mode qualification params = apply_runtime_overrides_value params qualified.params
  by_mode full params = params

  -- The parameters of a slot: the base parameters of the case, overridden in turn by the row of the
  -- experiment, the row of the study, the variant, the qualification and the explicit parameters.
  abbrev pub slot_params : Slot → RlabResult (Assoc Value)
  slot_params s = do
    base ← base_params_value default_params s.design.params study.params s.case.params
    with_row ← apply_dotted_overrides base s.experiment_row false
    with_axes ← apply_dotted_overrides with_row s.study_row false
    with_variant ← apply_declared_overrides_value with_axes s.variant.1
    value_to_params (apply_runtime_overrides_value (by_mode mode with_variant) explicit_params)

  -- The job is that of the slot.
  abbrev pub Fills : Slot → ExperimentJob → Type 0
  Fills s job =
      (job.experiment ≡ s.design.name)
      × (job.condition ≡ s.case.condition)
      × (job.variant ≡ s.variant.0)
      × (job.cell ≡ some s.cell)
      × (job.seed ≡ s.seed)
      × (slot_params s ≡ ok job.params)

  abbrev pub job_seeds : StudyMode → List (Option ℕ) → List (Option ℕ)
  job_seeds qualification seeds = some qualified.seed ∷ []
  job_seeds full seeds = seeds

  module _ (design : ExperimentDesign) (case : ExperimentCase) where
    abbrev pub slot_at : Row → Row → Option Text × Assoc Value → ℕ → Option ℕ → Slot
    slot_at experiment_row study_row variant cell seed = record {
      design = design;
      case = case;
      experiment_row = experiment_row;
      study_row = study_row;
      variant = variant;
      cell = cell;
      seed = seed;
    }

    abbrev pub variant_slots :
        List (Option ℕ) → Row → Row → List (Option Text × Assoc Value) → ℕ → List Slot
    variant_slots seeds experiment_row study_row [] cell = []
    variant_slots seeds experiment_row study_row (variant ∷ variants) cell =
        map (slot_at experiment_row study_row variant cell) (job_seeds mode seeds)
        ++ variant_slots seeds experiment_row study_row variants (suc cell)

    abbrev pub study_slots :
        List (Option ℕ) → List (Option Text × Assoc Value) → Row → List Row → ℕ → List Slot
    study_slots seeds variants experiment_row [] cell = []
    study_slots seeds variants experiment_row (row ∷ rows) cell =
        variant_slots seeds experiment_row row variants cell
        ++ study_slots seeds variants experiment_row rows (cell + length variants)

    abbrev pub row_slots :
        List (Option ℕ) → List (Option Text × Assoc Value) → List Row → List Row → ℕ → List Slot
    row_slots seeds variants study_rows [] cell = []
    row_slots seeds variants study_rows (row ∷ rows) cell =
        study_slots seeds variants row study_rows cell
        ++ row_slots seeds variants study_rows rows (cell + length study_rows * length variants)

    -- The slots of a case, the rows of the experiment outermost and the seeds innermost.
    abbrev pub case_slots : List Slot
    case_slots =
        row_slots (effective_full_seeds study.seeds design.seeds) (variant_rows study.variants)
          (choices study.axes) (choices design.matrix) 0
