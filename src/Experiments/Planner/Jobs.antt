-- ===== src/Experiments/Planner/Jobs.antt =====
-- Which jobs a plan has, in which order.
use research_lab.Prelude.{
  ℕ, suc, ◌+◌, Option, none, some, List, [], ◌∷◌, ◌++◌, map, length, append_assoc, append-nil, ◌≡◌,
  refl, sym, ap, subst, ◌∙◌, arith,
}
use research_lab.Experiments.Matrix.{Row}
use research_lab.Experiments.Planner.{
  ExperimentSpec, ExperimentJob, experiment_job, push_experiment_job, push_unseeded, push_seeds,
  push_seeded, planned_jobs,
}

-- The seeds that each row is run with; without seeds it is run once.
abbrev pub runs_of : List ℕ → List (Option ℕ)
runs_of [] = none ∷ []
runs_of (seed ∷ seeds) = map some (seed ∷ seeds)

-- The jobs of consecutive indices.
abbrev pub jobs_from : ExperimentSpec → Row → List (Option ℕ) → ℕ → List ExperimentJob
jobs_from spec row [] k = []
jobs_from spec row (seed ∷ seeds) k =
    experiment_job spec row seed k ∷ jobs_from spec row seeds (suc k)

abbrev pub jobs_of : ExperimentSpec → List (Option ℕ) → List Row → ℕ → List ExperimentJob
jobs_of spec seeds [] k = []
jobs_of spec seeds (row ∷ rows) k =
    jobs_from spec row seeds k ++ jobs_of spec seeds rows (k + length seeds)

push_seeds-eq :
    (spec : ExperimentSpec) (row : Row) (seeds : List ℕ) (jobs : List ExperimentJob) (k : ℕ)
    → push_seeds spec row seeds (jobs, k)
      ≡ (jobs ++ jobs_from spec row (map some seeds) k, k + length (map some seeds))
unfolding push_seeds push_experiment_job
push_seeds-eq spec row [] jobs k = rw (append-nil jobs) (ap (λ n. (jobs, n)) (omega arith))
push_seeds-eq spec row (seed ∷ seeds) jobs k =
    rw
      (
        push_seeds-eq spec row seeds (jobs ++ experiment_job spec row (some seed) k ∷ []) (suc k),
        append_assoc jobs (experiment_job spec row (some seed) k ∷ [])
            (jobs_from spec row (map some seeds) (suc k)),
      )
      (ap (λ n. (jobs ++ jobs_from spec row (map some (seed ∷ seeds)) k, n)) (omega arith))

push_seeded-eq :
    (spec : ExperimentSpec) (rows : List Row) (jobs : List ExperimentJob) (k : ℕ)
    → (push_seeded spec rows (jobs, k)).0 ≡ jobs ++ jobs_of spec (map some spec.seeds) rows k
unfolding push_seeded
push_seeded-eq spec [] jobs k = sym (append-nil jobs)
push_seeded-eq spec (row ∷ rows) jobs k =
    ap (λ p. (push_seeded spec rows p).0) (push_seeds-eq spec row spec.seeds jobs k)
    ∙ push_seeded-eq spec rows (jobs ++ jobs_from spec row (map some spec.seeds) k)
        (k + length (map some spec.seeds))
    ∙ append_assoc jobs (jobs_from spec row (map some spec.seeds) k)
        (jobs_of spec (map some spec.seeds) rows (k + length (map some spec.seeds)))

push_unseeded-eq :
    (spec : ExperimentSpec) (rows : List Row) (jobs : List ExperimentJob) (k : ℕ)
    → (push_unseeded spec rows (jobs, k)).0 ≡ jobs ++ jobs_of spec (none ∷ []) rows k
unfolding push_unseeded push_experiment_job
push_unseeded-eq spec [] jobs k = sym (append-nil jobs)
push_unseeded-eq spec (row ∷ rows) jobs k =
    rw
      (
        push_unseeded-eq spec rows (jobs ++ experiment_job spec row none k ∷ []) (suc k),
        append_assoc jobs (experiment_job spec row none k ∷ [])
            (jobs_of spec (none ∷ []) rows (suc k)),
      )
      (ap (λ n. jobs ++ experiment_job spec row none k ∷ jobs_of spec (none ∷ []) rows n)
        (omega arith))

pub planned_jobs-eq :
    (spec : ExperimentSpec) (rows : List Row)
    → planned_jobs spec spec.seeds rows ≡ jobs_of spec (runs_of spec.seeds) rows 0
unfolding planned_jobs
planned_jobs-eq spec rows = cases spec.seeds refl
  where
    cases :
        (seeds : List ℕ)
        → spec.seeds ≡ seeds
        → planned_jobs spec seeds rows ≡ jobs_of spec (runs_of seeds) rows 0
    cases [] e = push_unseeded-eq spec rows [] 0
    cases (seed ∷ seeds) e =
        subst (λ ss. (push_seeded spec rows ([], 0)).0 ≡ jobs_of spec (map some ss) rows 0) e
          (push_seeded-eq spec rows [] 0)
