-- ===== src/Experiments/Tests.antt =====
-- Runs at concrete inputs.
use research_lab.Prelude.{
  ◌≡◌, ◌↔◌, ◌<◌, ◌*◌, ◌+◌, refl, ℕ, none, some, [], ◌∷◌, length, get_elem?, Member,
}
use research_lab.Prelude.Text.{txt, text_cmp, is_blank, is_whitespace}
use research_lab.Prelude.Float.{is_finite, float_le}
use research_lab.Prelude.Decimal.{read_from}
use research_lab.Prelude.Outcome.{ok}
use research_lab.Prelude.Assoc
use research_lab.Json.{Value, number, Number}
use research_lab.Experiments.Matrix.{
  Axes, Row, expand_valid_axes, validate_axes, expand_axes, usize_limit, with_capacity, grid_size,
  expand_from, grid_size_from, checked_product, extend_rows, extend_row,
}
use research_lab.Experiments.Matrix.Choices.{choices, size}
use research_lab.Experiments.Matrix.Expansion.{
  Chooses, Expands, expand_valid_axes_lem, expand_valid_axes-rows,
}
use research_lab.Experiments.Retry.{no_retry, validate_retry}
use research_lab.Experiments.Planner.{
  ExperimentSpec, ExperimentPlan, experiment_job, plan_experiment, planned_jobs, validate_spec,
  job_count,
}
use research_lab.Experiments.Planner.Jobs.{runs_of}
use research_lab.Experiments.Planner.Places.{plan_experiment-places}
use research_lab.Experiments.Planner.Contents.{plan_experiment-job}

abbrev int : ℕ → Value
int n = number (Number.pos_int n)

abbrev axes : Axes
axes = (txt "batch", int 16 ∷ int 32 ∷ []) ∷ (txt "width", int 8 ∷ []) ∷ []

abbrev wide_row : Row
wide_row = (txt "batch", int 32) ∷ (txt "width", int 8) ∷ []

axes-IsSorted : Assoc.IsSorted axes
unfolding text_cmp
axes-IsSorted = (refl, (tt, tt))

expands : expand_valid_axes axes ≡ ok (choices axes)
unfolding expand_valid_axes validate_axes is_blank is_whitespace expand_axes grid_size
    grid_size_from checked_product with_capacity expand_from extend_rows extend_row Assoc.insert
    text_cmp
expands = refl

expand_valid_axes_lem_example : Expands axes (expand_valid_axes axes)
expand_valid_axes_lem_example = expand_valid_axes_lem axes axes-IsSorted

expand_valid_axes-rows_example :
    (length (choices axes) ≡ size axes)
    × (length (choices axes) < usize_limit)
    × (Member wide_row (choices axes) ↔ Chooses axes wide_row)
expand_valid_axes-rows_example =
    expand_valid_axes-rows axes (choices axes) wide_row axes-IsSorted expands

abbrev sweep : ExperimentSpec
sweep = record {
  schema_version = 1;
  name = txt "sweep";
  question = none;
  hypothesis = none;
  params = (txt "width", int 4) ∷ [];
  matrix = axes;
  metrics = [];
  seeds = 7 ∷ 11 ∷ [];
  retry = no_retry;
}

abbrev sweep_plan : ExperimentPlan
sweep_plan = record {
  schema_version = 1;
  experiment = txt "sweep";
  jobs = planned_jobs sweep sweep.seeds (choices axes);
}

plans : plan_experiment sweep ≡ ok sweep_plan
unfolding plan_experiment validate_spec validate_retry is_blank is_whitespace is_finite float_le
    job_count planned_jobs expand_valid_axes validate_axes expand_axes grid_size grid_size_from
    checked_product with_capacity expand_from extend_rows extend_row Assoc.insert text_cmp
plans = refl

plan_experiment-places_example :
    (length sweep_plan.jobs ≡ size axes * length (runs_of sweep.seeds))
    × (get_elem? sweep_plan.jobs (1 * length (runs_of sweep.seeds) + 0)
        ≡ some (experiment_job sweep wide_row (some 7) (1 * length (runs_of sweep.seeds) + 0)))
plan_experiment-places_example =
    plan_experiment-places sweep sweep_plan 1 0 wide_row (some 7) axes-IsSorted plans refl refl

third_job : get_elem? sweep_plan.jobs 2 ≡ some (experiment_job sweep wide_row (some 7) 2)
third_job = plan_experiment-places_example.1

plan_experiment-job_example :
    let job = experiment_job sweep wide_row (some 7) 2 in
    (job.cell ≡ some 2)
    × (read_from 0 job.job_id ≡ 2)
    × Member job.seed (runs_of sweep.seeds)
    × ((row : Row) × Chooses axes row
        × (Assoc.get (txt "width") job.params ≡ elim (Assoc.get (txt "width") row) [
          | none ↦ Assoc.get (txt "width") sweep.params
          | some v ↦ some v
        ]))
plan_experiment-job_example =
    plan_experiment-job sweep sweep_plan 2 (experiment_job sweep wide_row (some 7) 2) (txt "width")
      axes-IsSorted plans third_job
