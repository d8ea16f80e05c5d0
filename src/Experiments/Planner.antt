-- ===== src/Experiments/Planner.antt =====
-- crates/rlab-core/src/experiments/model.rs and planner.rs: the jobs that an experiment is planned
-- as. The count of jobs is below 2 ^ 64, so the index of a job does not wrap around.
pub mod Jobs
pub mod Places
pub mod Contents
use research_lab.Prelude.{
  ℕ, suc, ◌*◌, Bool, true, false, not, ◌==◌, ltb, Option, none, some, List, [], ◌∷◌, ◌++◌, length,
  if◌then◌else◌,
}
use research_lab.Prelude.Text.{Text, is_blank}
use research_lab.Prelude.Decimal.{padded}
use research_lab.Prelude.Outcome.{
  RlabResult, ok, err, validation, format, ◌>>=◌, ◌>>◌, ensure, check_all,
}
use research_lab.Prelude.Assoc
use research_lab.Prelude.Assoc.{Assoc}
use research_lab.Json.{Value}
use research_lab.Experiments.Matrix.{
  Axes, Row, expand_valid_axes, usize_limit, items_of, with_capacity,
}
use research_lab.Experiments.Retry.{RetryPolicy, validate_retry}

abbrev pub experiment_schema_version : ℕ
experiment_schema_version = 1

pub record ExperimentSpec : Type 0 where
  pub schema_version : ℕ
  pub name : Text
  pub question : Option Text
  pub hypothesis : Option Text
  pub params : Assoc Value
  pub matrix : Axes
  pub metrics : List Text
  pub seeds : List ℕ
  pub retry : RetryPolicy

pub record ExperimentJob : Type 0 where
  pub schema_version : ℕ
  pub job_id : Text
  pub experiment : Text
  pub condition : Option Text
  pub variant : Option Text
  pub cell : Option ℕ
  pub params : Assoc Value
  pub seed : Option ℕ

pub record ExperimentPlan : Type 0 where
  pub schema_version : ℕ
  pub experiment : Text
  pub jobs : List ExperimentJob

validate_metric : Text → RlabResult (Unit {0})
validate_metric metric =
    ensure (not (is_blank metric)) (validation (format "metric names cannot be empty" []))

-- `ExperimentSpec::validate`
unfoldable pub validate_spec : ExperimentSpec → RlabResult (Unit {0})
unfolding validate_metric validate_retry
validate_spec s = do
  ensure (s.schema_version == experiment_schema_version)
      (validation (format "unsupported experiment schema_version" []))
  ensure (not (is_blank s.name)) (validation (format "experiment name cannot be empty" []))
  check_all validate_metric s.metrics
  validate_retry s.retry

unfoldable pub merged_params : Assoc Value → Row → Assoc Value
merged_params base row = Assoc.extend base row

unfoldable pub experiment_job : ExperimentSpec → Row → Option ℕ → ℕ → ExperimentJob
unfolding merged_params
experiment_job spec row seed index = record {
  schema_version = experiment_schema_version;
  job_id = padded 4 index;
  experiment = spec.name;
  condition = none;
  variant = none;
  cell = some index;
  params = merged_params spec.params row;
  seed = seed;
}

-- The jobs so far, and the index of the next.
abbrev pub Progress : Type 0
Progress = List ExperimentJob × ℕ

unfoldable pub push_experiment_job : ExperimentSpec → Row → Option ℕ → Progress → Progress
unfolding experiment_job
push_experiment_job spec row seed (jobs, index) =
    (jobs ++ experiment_job spec row seed index ∷ [], suc index)

-- `for row in &rows`, without seeds.
unfoldable pub push_unseeded : ExperimentSpec → List Row → Progress → Progress
unfolding push_experiment_job
push_unseeded spec [] p = p
push_unseeded spec (row ∷ rows) p = push_unseeded spec rows (push_experiment_job spec row none p)

-- `for seed in &spec.seeds`, and the loop over the rows around it.
unfoldable pub push_seeds : ExperimentSpec → Row → List ℕ → Progress → Progress
unfolding push_experiment_job
push_seeds spec row [] p = p
push_seeds spec row (seed ∷ seeds) p =
    push_seeds spec row seeds (push_experiment_job spec row (some seed) p)

unfoldable pub push_seeded : ExperimentSpec → List Row → Progress → Progress
unfolding push_seeds
push_seeded spec [] p = p
push_seeded spec (row ∷ rows) p = push_seeded spec rows (push_seeds spec row spec.seeds p)

unfoldable pub job_count : ℕ → ℕ → RlabResult ℕ
job_count row_count seed_count =
    let effective = if seed_count == 0 then 1 else seed_count in
    if ltb (row_count * effective) usize_limit
    then ok (row_count * effective)
    else err (validation (format "experiment plan is too large" []))

-- The two loops of `plan_experiment`.
unfoldable pub planned_jobs : ExperimentSpec → List ℕ → List Row → List ExperimentJob
unfolding push_unseeded push_seeded
planned_jobs spec [] rows = (push_unseeded spec rows ([], 0)).0
planned_jobs spec (seed ∷ seeds) rows = (push_seeded spec rows ([], 0)).0

-- An `ExperimentJob` has 160 bytes.
abbrev pub job_capacity : ℕ
job_capacity = items_of 160

unfoldable pub plan_experiment : ExperimentSpec → RlabResult ExperimentPlan
unfolding validate_spec expand_valid_axes job_count with_capacity planned_jobs
plan_experiment spec = do
  validate_spec spec
  rows ← expand_valid_axes spec.matrix
  capacity ← job_count (length rows) (length spec.seeds)
  with_capacity job_capacity capacity
  ok (record {
    schema_version = experiment_schema_version;
    experiment = spec.name;
    jobs = planned_jobs spec spec.seeds rows;
  })
