-- ===== src/Study/Jobs.antt =====
-- `append_study_jobs` and the loop over the cases of `plan_registry_study`
-- (crates/rlab-core/src/study/registry.rs).
pub mod Numbering
pub mod Each
pub mod Slots
pub mod Cells
pub mod Filled
pub mod Plan
pub mod Explicit
use research_lab.Prelude.{ℕ, suc, ◌+◌, false, Option, none, some, List, [], ◌∷◌, ◌++◌, length}
use research_lab.Prelude.Text.{Text}
use research_lab.Prelude.Decimal.{padded}
use research_lab.Prelude.Outcome.{RlabResult, ok, err, validation, format, ◌>>=◌, ◌>>◌, ok_or}
use research_lab.Prelude.Assoc
use research_lab.Prelude.Assoc.{Assoc}
use research_lab.Json.{Value}
use research_lab.Documents.{apply_dotted_overrides}
use research_lab.Experiments.Matrix.{Row, expand_valid_axes, with_capacity}
use research_lab.Experiments.Planner.{ExperimentJob, job_capacity}
use research_lab.Study.{
  StudyMode, qualification, full, ExperimentDesign, StudyDesign, ExperimentCase, Qualification,
  RegistryStudyPlan, study_schema_version, apply_declared_overrides_value,
  apply_runtime_overrides_value, value_to_params, base_params_value, effective_full_seeds,
  variant_rows, planned_job_count, reject_qualification_collisions,
}

abbrev pub Jobs : Type 0
Jobs = List ExperimentJob

unfoldable pub push_study_job :
    Jobs → Text → Option Text → Option Text → ℕ → Assoc Value → Option ℕ → Jobs
push_study_job output experiment condition variant cell params seed =
    output
    ++ record {
      schema_version = study_schema_version;
      job_id = padded 4 (length output);
      experiment = experiment;
      condition = condition;
      variant = variant;
      cell = some cell;
      params = params;
      seed = seed;
    }
      ∷ []

module _ (experiment : ExperimentDesign) (study : StudyDesign) (case : ExperimentCase)
    (mode : StudyMode) (qualified : Qualification) (explicit_params : Assoc Value) where
  -- The loop over the seeds.
  pub push_seeded : Option Text → ℕ → Value → List (Option ℕ) → Jobs → RlabResult Jobs
  unfolding push_study_job
  push_seeded variant cell params [] output = ok output
  push_seeded variant cell params (seed ∷ seeds) output = do
    final ← value_to_params (apply_runtime_overrides_value params explicit_params)
    push_seeded variant cell params seeds
        (push_study_job output experiment.name case.condition variant cell final seed)

  -- The jobs of one cell, by the mode.
  pub push_cell : StudyMode → Option Text → ℕ → Value → List (Option ℕ) → Jobs → RlabResult Jobs
  unfolding push_seeded
  push_cell qualification variant cell params seeds output = do
    final ← value_to_params (
        apply_runtime_overrides_value (apply_runtime_overrides_value params qualified.params)
          explicit_params)
    ok (
        push_study_job output experiment.name case.condition variant cell final
          (some qualified.seed))
  push_cell full variant cell params seeds output = push_seeded variant cell params seeds output

  pub cell_params : Value → Row → Row → Assoc Value → RlabResult Value
  cell_params base experiment_row study_row variant_overrides = do
    params ← apply_dotted_overrides base experiment_row false
    params' ← apply_dotted_overrides params study_row false
    apply_declared_overrides_value params' variant_overrides

  -- The jobs so far, and the index of the next cell.
  abbrev pub Cells : Type 0
  Cells = Jobs × ℕ

  -- The three loops, from the innermost.
  pub append_variants :
      Value
      → List (Option ℕ)
      → Row
      → Row
      → List (Option Text × Assoc Value)
      → Cells
      → RlabResult Cells
  unfolding push_cell cell_params
  append_variants base seeds experiment_row study_row [] cells = ok cells
  append_variants base seeds experiment_row study_row ((variant, over) ∷ variants) cells = do
    params ← cell_params base experiment_row study_row over
    output ← push_cell mode variant cells.1 params seeds cells.0
    append_variants base seeds experiment_row study_row variants (output, suc cells.1)

  pub append_study_rows :
      Value
      → List (Option ℕ)
      → List (Option Text × Assoc Value)
      → Row
      → List Row
      → Cells
      → RlabResult Cells
  unfolding append_variants
  append_study_rows base seeds variants experiment_row [] cells = ok cells
  append_study_rows base seeds variants experiment_row (row ∷ rows) cells = do
    cells' ← append_variants base seeds experiment_row row variants cells
    append_study_rows base seeds variants experiment_row rows cells'

  pub append_rows :
      Value
      → List (Option ℕ)
      → List (Option Text × Assoc Value)
      → List Row
      → List Row
      → Cells
      → RlabResult Cells
  unfolding append_study_rows
  append_rows base seeds variants study_rows [] cells = ok cells
  append_rows base seeds variants study_rows (row ∷ rows) cells = do
    cells' ← append_study_rows base seeds variants row study_rows cells
    append_rows base seeds variants study_rows rows cells'

  -- `output.reserve` is taken to panic exactly if the jobs, with those that are there, do not fit.
  unfoldable pub append_study_jobs : Assoc Value → Jobs → RlabResult Jobs
  unfolding append_rows planned_job_count with_capacity
  append_study_jobs default_params output = do
    experiment_rows ← expand_valid_axes experiment.matrix
    study_rows ← expand_valid_axes study.axes
    let variants : List (Option Text × Assoc Value) = variant_rows study.variants
    let seeds : List (Option ℕ) = effective_full_seeds study.seeds experiment.seeds
    planned ←
        planned_job_count (length experiment_rows) (length study_rows) (length variants)
          (length seeds) mode
    with_capacity job_capacity (length output + planned)
    base ← base_params_value default_params experiment.params study.params case.params
    cells ← append_rows base seeds variants study_rows experiment_rows (output, 0)
    ok cells.0

-- The loop over the cases: `designs` gives an experiment's record name and decoded design, or none
-- if the registry does not know it.
unfoldable pub plan_cases :
    (Text → Option (RlabResult ExperimentDesign))
    → Text
    → StudyDesign
    → StudyMode
    → Qualification
    → Assoc Value
    → Assoc Value
    → List ExperimentCase
    → Jobs
    → RlabResult Jobs
unfolding append_study_jobs reject_qualification_collisions
plan_cases designs name study mode qualified default_params explicit_params [] output = ok output
plan_cases designs name study mode qualified default_params explicit_params (case ∷ cases) output =
    do
      found ← ok_or (designs case.experiment) (
          validation
            (format "study {} references unknown experiment {}" (name ∷ case.experiment ∷ [])))
      experiment ← found
      reject_qualification_collisions experiment.name experiment.matrix study.axes study.variants
          qualified.params
      output' ←
          append_study_jobs experiment study case mode qualified explicit_params default_params
            output
      plan_cases designs name study mode qualified default_params explicit_params cases output'

pub no_cases : List ExperimentCase → Text → RlabResult (Unit {0})
no_cases [] name =
    err (validation (format "study {} does not declare experiments or conditions" (name ∷ [])))
no_cases (case ∷ cases) name = ok tt

-- `plan_registry_study` from the decoded study on.
unfoldable pub plan_study :
    (Text → Option (RlabResult ExperimentDesign))
    → Text
    → StudyDesign
    → StudyMode
    → Qualification
    → Assoc Value
    → Assoc Value
    → List ExperimentCase
    → RlabResult RegistryStudyPlan
unfolding plan_cases no_cases
plan_study designs name study mode qualified default_params explicit_params cases = do
  no_cases cases name
  jobs ← plan_cases designs name study mode qualified default_params explicit_params cases []
  ok (record { schema_version = study_schema_version; study = name; mode = mode; jobs = jobs })
