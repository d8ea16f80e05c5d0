-- ===== src/Experiments/Planner/Places.antt =====
-- Where each job of a plan stands, and what it runs.
use research_lab.Prelude.{
  ℕ, zero, suc, ◌+◌, ◌*◌, Option, some, List, [], ◌∷◌, length, length-append, get_elem?,
  get_elem?-append_left, get_elem?-append_right, ◌≡◌, refl, ap, ◌∙◌, arith,
}
use research_lab.Prelude.Outcome.{ok, bind-eq-ok}
use research_lab.Prelude.Assoc
use research_lab.Prelude.Assoc.{Assoc, get-extend}
use research_lab.Experiments.Matrix.{Row, expand_valid_axes, with_capacity}
use research_lab.Experiments.Matrix.Choices.{choices, size}
use research_lab.Experiments.Matrix.Expansion.{length-choices, expand_valid_axes-choices}
use research_lab.Experiments.Planner.{
  ExperimentSpec, ExperimentPlan, experiment_job, planned_jobs, plan_experiment, validate_spec,
  job_count, job_capacity,
}
use research_lab.Experiments.Planner.Jobs.{runs_of, jobs_from, jobs_of, planned_jobs-eq}

pub plan-jobs :
    (spec : ExperimentSpec) (plan : ExperimentPlan)
    → Assoc.IsSorted spec.matrix
    → plan_experiment spec ≡ ok plan
    → plan.jobs ≡ jobs_of spec (runs_of spec.seeds) (choices spec.matrix) 0
unfolding plan_experiment
plan-jobs spec plan s e =
    let (u, valid, e1) = bind-eq-ok (validate_spec spec) _ e in
    let (rows, expanded, e2) = bind-eq-ok (expand_valid_axes spec.matrix) _ e1 in
    let (n, counted, e3) = bind-eq-ok (job_count (length rows) (length spec.seeds)) _ e2 in
    let (roomy, room, e4) = bind-eq-ok (with_capacity job_capacity n) _ e3 in
    let same : rows ≡ choices spec.matrix = expand_valid_axes-choices spec.matrix rows s expanded in
    let made : plan.jobs ≡ planned_jobs spec spec.seeds rows = cc e4 in
    made ∙ ap (planned_jobs spec spec.seeds) same ∙ planned_jobs-eq spec (choices spec.matrix)

pub length-jobs_from :
    (spec : ExperimentSpec) (row : Row) (seeds : List (Option ℕ)) (k : ℕ)
    → length (jobs_from spec row seeds k) ≡ length seeds
length-jobs_from spec row [] k = refl
length-jobs_from spec row (seed ∷ seeds) k = ap suc (length-jobs_from spec row seeds (suc k))

length-jobs_of :
    (spec : ExperimentSpec) (seeds : List (Option ℕ)) (rows : List Row) (k : ℕ)
    → length (jobs_of spec seeds rows k) ≡ length rows * length seeds
length-jobs_of spec seeds [] k = omega arith
length-jobs_of spec seeds (row ∷ rows) k = omega (
  arith,
  length-append (jobs_from spec row seeds k) (jobs_of spec seeds rows (k + length seeds)),
  length-jobs_from spec row seeds k,
  length-jobs_of spec seeds rows (k + length seeds),
)

get_elem?-jobs_from :
    (spec : ExperimentSpec) (row : Row) (seeds : List (Option ℕ)) (k j : ℕ) {seed : Option ℕ}
    → get_elem? seeds j ≡ some seed
    → get_elem? (jobs_from spec row seeds k) j ≡ some (experiment_job spec row seed (k + j))
get_elem?-jobs_from spec row [] k j e = cc
get_elem?-jobs_from spec row (s ∷ seeds) k zero {seed} e =
    let same : s ≡ seed = cc in
    rw same (ap (λ n. some (experiment_job spec row seed n)) (omega arith))
get_elem?-jobs_from spec row (s ∷ seeds) k (suc j) {seed} e =
    get_elem?-jobs_from spec row seeds (suc k) j e
    ∙ ap (λ n. some (experiment_job spec row seed n)) (omega arith)

get_elem?-jobs_of :
    (spec : ExperimentSpec) (seeds : List (Option ℕ)) (rows : List Row) (k i j : ℕ) {row : Row}
    {seed : Option ℕ}
    → get_elem? rows i ≡ some row
    → get_elem? seeds j ≡ some seed
    → get_elem? (jobs_of spec seeds rows k) (i * length seeds + j)
      ≡ some (experiment_job spec row seed (k + (i * length seeds + j)))
get_elem?-jobs_of spec seeds [] k i j e h = cc
get_elem?-jobs_of spec seeds (r ∷ rows) k zero j {row} {seed} e h =
    let same : r ≡ row = cc e in
    let first =
      get_elem?-append_left (jobs_from spec r seeds k) (jobs_of spec seeds rows (k + length seeds))
        j (get_elem?-jobs_from spec r seeds k j h) in
    ap (get_elem? (jobs_of spec seeds (r ∷ rows) k)) (omega arith)
    ∙ first
    ∙ ap (λ q. some (experiment_job spec q seed (k + j))) same
    ∙ ap (λ n. some (experiment_job spec row seed n)) (omega arith)
get_elem?-jobs_of spec seeds (r ∷ rows) k (suc i) j {row} {seed} e h =
    let place : suc i * length seeds + j
        ≡ length (jobs_from spec r seeds k) + (i * length seeds + j) =
      omega (arith, length-jobs_from spec r seeds k) in
    ap (get_elem? (jobs_of spec seeds (r ∷ rows) k)) place
    ∙ get_elem?-append_right (jobs_from spec r seeds k) (jobs_of spec seeds rows (k + length seeds))
        (i * length seeds + j)
    ∙ get_elem?-jobs_of spec seeds rows (k + length seeds) i j e h
    ∙ ap (λ n. some (experiment_job spec row seed n)) (omega arith)

-- A plan has one job for each row and seed (one for each row when there are no seeds): the job of
-- the i-th row and the j-th seed stands at the place i * (number of seeds) + j, which is its index.
pub plan_experiment-places :
    (spec : ExperimentSpec) (plan : ExperimentPlan) (i j : ℕ) (row : Row) (seed : Option ℕ)
    → Assoc.IsSorted spec.matrix
    → plan_experiment spec ≡ ok plan
    → get_elem? (choices spec.matrix) i ≡ some row
    → get_elem? (runs_of spec.seeds) j ≡ some seed
    → let place = i * length (runs_of spec.seeds) + j in
      (length plan.jobs ≡ size spec.matrix * length (runs_of spec.seeds))
      × (get_elem? plan.jobs place ≡ some (experiment_job spec row seed place))
plan_experiment-places spec plan i j row seed s e at_row at_seed =
    let made = plan-jobs spec plan s e in
    (
      ap length made
          ∙ length-jobs_of spec (runs_of spec.seeds) (choices spec.matrix) 0
          ∙ ap (λ n. n * length (runs_of spec.seeds)) (length-choices spec.matrix),
      ap (λ jobs. get_elem? jobs (i * length (runs_of spec.seeds) + j)) made
          ∙ get_elem?-jobs_of spec (runs_of spec.seeds) (choices spec.matrix) 0 i j at_row at_seed
          ∙ ap (λ n. some (experiment_job spec row seed n)) (omega arith),
    )
