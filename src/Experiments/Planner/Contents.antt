-- ===== src/Experiments/Planner/Contents.antt =====
-- What the job at each place of a plan runs.
use research_lab.Prelude.{
  ℕ, zero, suc, ◌+◌, ◌-◌, ltb, Option, none, some, List, [], ◌∷◌, length, get_elem?,
  get_elem?-append_right, get_elem?-append_in, Bool-cases, Member, ◌≡◌, inl, inr, refl, sym, ap,
  subst, ◌∙◌, arith,
}
use research_lab.Prelude.Text.{Text}
use research_lab.Prelude.Decimal.{read_from, read_from-padded}
use research_lab.Prelude.Outcome.{ok}
use research_lab.Prelude.Assoc
use research_lab.Prelude.Assoc.{Assoc, get-extend}
use research_lab.Experiments.Matrix.{Axes, Row}
use research_lab.Experiments.Matrix.Choices.{choices}
use research_lab.Experiments.Matrix.Expansion.{Chooses, choices-Chooses}
use research_lab.Experiments.Planner.{
  ExperimentSpec, ExperimentJob, ExperimentPlan, experiment_job, merged_params, plan_experiment,
}
use research_lab.Experiments.Planner.Jobs.{runs_of, jobs_from, jobs_of}
use research_lab.Experiments.Planner.Places.{plan-jobs, length-jobs_from}

-- The jobs are those of consecutive indices, each with a row and a seed of the lists.
abbrev Runs : ExperimentSpec → List (Option ℕ) → List Row → ExperimentJob → ℕ → Type 0
Runs spec seeds rows job k =
    (row : Row) × (seed : Option ℕ) × (job ≡ experiment_job spec row seed k)
    × Member row rows
    × Member seed seeds

Runs-jobs_from :
    (spec : ExperimentSpec) (row : Row) (rows : List Row) (seeds : List (Option ℕ)) (k n : ℕ)
    (job : ExperimentJob)
    → Member row rows
    → get_elem? (jobs_from spec row seeds k) n ≡ some job
    → Runs spec seeds rows job (k + n)
Runs-jobs_from spec row rows [] k n job m e = cc
Runs-jobs_from spec row rows (seed ∷ seeds) k zero job m e =
    let here : experiment_job spec row seed k ≡ job = cc e in
    (row, seed, sym here ∙ ap (experiment_job spec row seed) (omega arith), m, inl refl)
Runs-jobs_from spec row rows (seed ∷ seeds) k (suc n) job m e =
    let (r, s, same, in_rows, in_seeds) = Runs-jobs_from spec row rows seeds (suc k) n job m e in
    (r, s, same ∙ ap (experiment_job spec r s) (omega arith), in_rows, inr in_seeds)

Runs-weaken :
    (spec : ExperimentSpec) (seeds : List (Option ℕ)) (row : Row) (rows : List Row)
    (job : ExperimentJob) (k : ℕ)
    → Runs spec seeds rows job k
    → Runs spec seeds (row ∷ rows) job k
Runs-weaken spec seeds row rows job k (r, s, same, in_rows, in_seeds) =
    (r, s, same, inr in_rows, in_seeds)

Runs-jobs_of :
    (spec : ExperimentSpec) (seeds : List (Option ℕ)) (rows : List Row) (k n : ℕ)
    (job : ExperimentJob)
    → get_elem? (jobs_of spec seeds rows k) n ≡ some job
    → Runs spec seeds rows job (k + n)
Runs-jobs_of spec seeds [] k n job e = cc
Runs-jobs_of spec seeds (row ∷ rows) k n job e = elim (Bool-cases (ltb n (length seeds))) [
  | inl t ↦ Runs-jobs_from spec row (row ∷ rows) seeds k n job (inl refl) (
      sym (
        get_elem?-append_in (jobs_from spec row seeds k)
          (jobs_of spec seeds rows (k + length seeds)) n
          (ground (arith, length-jobs_from spec row seeds k)))
      ∙ e)
  | inr t ↦
      let m = n - length seeds in
      let place : n ≡ length (jobs_from spec row seeds k) + m =
        ground (arith, length-jobs_from spec row seeds k) in
      let there : get_elem? (jobs_of spec seeds rows (k + length seeds)) m ≡ some job =
        sym (
          get_elem?-append_right (jobs_from spec row seeds k)
            (jobs_of spec seeds rows (k + length seeds)) m)
        ∙ ap (get_elem? (jobs_of spec seeds (row ∷ rows) k)) (sym place)
        ∙ e in
      let index : k + length seeds + m ≡ k + n =
        ground (arith, length-jobs_from spec row seeds k) in
      subst (Runs spec seeds (row ∷ rows) job) index (
        Runs-weaken spec seeds row rows job (k + length seeds + m)
          (Runs-jobs_of spec seeds rows (k + length seeds) m job there))
]

Chooses-IsSorted :
    (axes : Axes) (row : Row) → Assoc.IsSorted axes → Chooses axes row → Assoc.IsSorted row
Chooses-IsSorted [] [] s c = tt
Chooses-IsSorted [] (x ∷ row) s c = absurd c
Chooses-IsSorted (axis ∷ axes) [] s c = absurd c
Chooses-IsSorted ((axis, values) ∷ axes) ((k, v) ∷ row) s (e, here, c) =
    (above axes row s.0 c, Chooses-IsSorted axes row s.1 c)
  where
    above : (axes : Axes) (row : Row) → Assoc.Above axis axes → Chooses axes row → Assoc.Above k row
    above [] [] a c = tt
    above [] (x ∷ row) a c = absurd c
    above (y ∷ axes) [] a c = absurd c
    above ((later, vs) ∷ axes) ((j, w) ∷ row) a (e', here, c) = cc

-- The job at a place of a plan has the place as its cell, an identifier that spells the place (so no
-- two jobs share an identifier), one of the seeds, and as parameters those of the experiment
-- overridden by a choice of a value for each axis.
pub plan_experiment-job :
    (spec : ExperimentSpec) (plan : ExperimentPlan) (n : ℕ) (job : ExperimentJob) (key : Text)
    → Assoc.IsSorted spec.matrix
    → plan_experiment spec ≡ ok plan
    → get_elem? plan.jobs n ≡ some job
    → (job.cell ≡ some n)
      × (read_from 0 job.job_id ≡ n)
      × Member job.seed (runs_of spec.seeds)
      × ((row : Row) × Chooses spec.matrix row
          × (Assoc.get key job.params
              ≡ elim (Assoc.get key row) [ none ↦ Assoc.get key spec.params | some v ↦ some v ]))
unfolding experiment_job merged_params
plan_experiment-job spec plan n job key s e at_n =
    let (row, seed, same, in_rows, in_seeds) =
      Runs-jobs_of spec (runs_of spec.seeds) (choices spec.matrix) 0 n job
        (sym (ap (λ jobs. get_elem? jobs n) (plan-jobs spec plan s e)) ∙ at_n) in
    let chosen = choices-Chooses spec.matrix row in_rows in
    let same' : job ≡ experiment_job spec row seed n =
      same ∙ ap (experiment_job spec row seed) (omega arith) in
    (
      ap (λ j. j.cell) same',
      ap (λ j. read_from 0 j.job_id) same' ∙ read_from-padded 4 n,
      subst (λ o. Member o (runs_of spec.seeds)) (sym (ap (λ j. j.seed) same')) in_seeds,
      (
        row,
        chosen,
        ap (λ j. Assoc.get key j.params) same'
            ∙ get-extend key spec.params row (Chooses-IsSorted spec.matrix row s chosen),
      ),
    )
