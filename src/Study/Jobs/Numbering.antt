-- ===== src/Study/Jobs/Numbering.antt =====
-- How many jobs a study is planned as, and how they are identified.
use research_lab.Prelude.{
  ℕ, suc, ◌+◌, ◌*◌, Option, some, List, [], ◌∷◌, ◌++◌, length, length-append, ◌≡◌, ap, subst, ◌∙◌,
  arith,
}
use research_lab.Prelude.Text.{Text}
use research_lab.Prelude.Decimal.{read_from, read_from-padded}
use research_lab.Prelude.Outcome.{ok, bind-eq-ok}
use research_lab.Prelude.Assoc
use research_lab.Prelude.Assoc.{Assoc}
use research_lab.Json.{Value}
use research_lab.Experiments.Matrix.{Row, expand_valid_axes, with_capacity}
use research_lab.Experiments.Matrix.Choices.{size}
use research_lab.Experiments.Matrix.Expansion.{expand_valid_axes-choices, length-choices}
use research_lab.Experiments.Planner.{ExperimentJob, job_capacity}
use research_lab.Study.{
  StudyMode, qualification, full, ExperimentDesign, StudyDesign, ExperimentCase, Qualification,
  apply_runtime_overrides_value, value_to_params, base_params_value, effective_full_seeds,
  variant_rows, planned_job_count, seed_count,
}
use research_lab.Study.Jobs.{
  Jobs, push_study_job, push_seeded, push_cell, cell_params, append_variants, append_study_rows,
  append_rows, append_study_jobs,
}

-- The jobs are identified by consecutive numbers.
abbrev pub IsNumbered : ℕ → Jobs → Type 0
IsNumbered k [] = Unit
IsNumbered k (job ∷ jobs) = (read_from 0 job.job_id ≡ k) × IsNumbered (suc k) jobs

IsNumbered-snoc :
    (k : ℕ) (jobs : Jobs) (job : ExperimentJob)
    → IsNumbered k jobs
    → read_from 0 job.job_id ≡ k + length jobs
    → IsNumbered k (jobs ++ job ∷ [])
IsNumbered-snoc k [] job h e = (omega (arith, e), tt)
IsNumbered-snoc k (j ∷ jobs) job h e =
    (h.0, IsNumbered-snoc (suc k) jobs job h.1 (omega (arith, e)))

-- The jobs so far are numbered from zero, and there are as many as said.
abbrev pub Planned : ℕ → Jobs → Type 0
Planned n jobs = IsNumbered 0 jobs × (length jobs ≡ n)

Planned-same : {n m : ℕ} (jobs : Jobs) → n ≡ m → Planned n jobs → Planned m jobs
Planned-same jobs e h = (h.0, h.1 ∙ e)

push-Planned :
    (n : ℕ) (output : Jobs) (experiment : Text) (condition variant : Option Text) (cell : ℕ)
    (params : Assoc Value) (seed : Option ℕ)
    → Planned n output
    → Planned (suc n) (push_study_job output experiment condition variant cell params seed)
unfolding push_study_job
push-Planned n output experiment condition variant cell params seed h = (
  IsNumbered-snoc 0 output _ h.0 (read_from-padded 4 (length output) ∙ omega arith),
  omega (arith, h.1, length-append output (_ ∷ [])),
)

module _ (experiment : ExperimentDesign) (study : StudyDesign) (case : ExperimentCase)
    (mode : StudyMode) (qualified : Qualification) (explicit_params : Assoc Value) where
  seeded-Planned :
      (n : ℕ) (variant : Option Text) (cell : ℕ) (params : Value) (seeds : List (Option ℕ))
      (output output' : Jobs)
      → Planned n output
      → push_seeded experiment study case mode qualified explicit_params variant cell params seeds
          output
        ≡ ok output'
      → Planned (n + length seeds) output'
  unfolding push_seeded
  seeded-Planned n variant cell params [] output output' h e =
      let same : output ≡ output' = cc e in
      Planned-same output' (omega arith) (subst (Planned n) same h)
  seeded-Planned n variant cell params (seed ∷ seeds) output output' h e =
      let (final, f, rest) =
        bind-eq-ok (value_to_params (apply_runtime_overrides_value params explicit_params)) _ e in
      Planned-same output' (omega arith) (
        seeded-Planned (suc n) variant cell params seeds _ output'
          (push-Planned n output experiment.name case.condition variant cell final seed h) rest)

  cell-Planned :
      (m : StudyMode) (n : ℕ) (variant : Option Text) (cell : ℕ) (params : Value)
      (seeds : List (Option ℕ)) (output output' : Jobs)
      → Planned n output
      → push_cell experiment study case mode qualified explicit_params m variant cell params seeds
          output
        ≡ ok output'
      → Planned (n + seed_count m (length seeds)) output'
  unfolding push_cell
  cell-Planned qualification n variant cell params seeds output output' h e =
      let (final, f, rest) =
        bind-eq-ok
          (value_to_params (
            apply_runtime_overrides_value (apply_runtime_overrides_value params qualified.params)
              explicit_params))
          _ e in
      let made =
        push-Planned n output experiment.name case.condition variant cell final
          (some qualified.seed) h in
      subst (Planned (n + 1)) (cc rest) (Planned-same _ (omega arith) made)
  cell-Planned full n variant cell params seeds output output' h e =
      seeded-Planned n variant cell params seeds output output' h e

  variants-Planned :
      (n : ℕ) (base : Value) (seeds : List (Option ℕ)) (experiment_row study_row : Row)
      (variants : List (Option Text × Assoc Value)) (cells cells' : Jobs × ℕ)
      → Planned n cells.0
      → append_variants experiment study case mode qualified explicit_params base seeds
          experiment_row study_row variants cells
        ≡ ok cells'
      → Planned (n + length variants * seed_count mode (length seeds)) cells'.0
  unfolding append_variants
  variants-Planned n base seeds experiment_row study_row [] cells cells' h e =
      let same : cells.0 ≡ cells'.0 = cc e in
      Planned-same cells'.0 (omega arith) (subst (Planned n) same h)
  variants-Planned n base seeds experiment_row study_row ((variant, over) ∷ variants) cells cells' h
        e =
      let (params, p, e1) =
        bind-eq-ok
          (cell_params experiment study case mode qualified explicit_params base experiment_row
            study_row over)
          _ e in
      let (output, q, e2) =
        bind-eq-ok
          (push_cell experiment study case mode qualified explicit_params mode variant cells.1
            params seeds cells.0)
          _ e1 in
      Planned-same cells'.0 (omega arith) (
        variants-Planned (n + seed_count mode (length seeds)) base seeds experiment_row study_row
          variants (output, suc cells.1) cells'
          (cell-Planned mode n variant cells.1 params seeds cells.0 output h q) e2)

  study_rows-Planned :
      (n : ℕ) (base : Value) (seeds : List (Option ℕ)) (variants : List (Option Text × Assoc Value))
      (experiment_row : Row) (rows : List Row) (cells cells' : Jobs × ℕ)
      → Planned n cells.0
      → append_study_rows experiment study case mode qualified explicit_params base seeds variants
          experiment_row rows cells
        ≡ ok cells'
      → Planned (n + length rows * (length variants * seed_count mode (length seeds))) cells'.0
  unfolding append_study_rows
  study_rows-Planned n base seeds variants experiment_row [] cells cells' h e =
      let same : cells.0 ≡ cells'.0 = cc e in
      Planned-same cells'.0 (omega arith) (subst (Planned n) same h)
  study_rows-Planned n base seeds variants experiment_row (row ∷ rows) cells cells' h e =
      let (next, p, rest) =
        bind-eq-ok
          (append_variants experiment study case mode qualified explicit_params base seeds
            experiment_row row variants cells)
          _ e in
      Planned-same cells'.0 (omega arith) (
        study_rows-Planned (n + length variants * seed_count mode (length seeds)) base seeds
          variants experiment_row rows next cells'
          (variants-Planned n base seeds experiment_row row variants cells next h p) rest)

  rows-Planned :
      (n : ℕ) (base : Value) (seeds : List (Option ℕ)) (variants : List (Option Text × Assoc Value))
      (study_rows rows : List Row) (cells cells' : Jobs × ℕ)
      → Planned n cells.0
      → append_rows experiment study case mode qualified explicit_params base seeds variants
          study_rows rows cells
        ≡ ok cells'
      → Planned
          (n
            + length rows
              * (length study_rows * (length variants * seed_count mode (length seeds))))
          cells'.0
  unfolding append_rows
  rows-Planned n base seeds variants study_rows [] cells cells' h e =
      let same : cells.0 ≡ cells'.0 = cc e in
      Planned-same cells'.0 (omega arith) (subst (Planned n) same h)
  rows-Planned n base seeds variants study_rows (row ∷ rows) cells cells' h e =
      let (next, p, rest) =
        bind-eq-ok
          (append_study_rows experiment study case mode qualified explicit_params base seeds
            variants row study_rows cells)
          _ e in
      Planned-same cells'.0 (omega arith) (
        rows-Planned (n + length study_rows * (length variants * seed_count mode (length seeds)))
          base seeds variants study_rows rows next cells'
          (study_rows-Planned n base seeds variants row study_rows cells next h p) rest)

  -- How many jobs a case adds.
  abbrev pub case_jobs : ℕ
  case_jobs =
      size experiment.matrix
      * (size study.axes
          * (length (variant_rows study.variants)
              * seed_count mode (length (effective_full_seeds study.seeds experiment.seeds))))

  -- A case that is planned adds one job for each row of the experiment's matrix, row of the study's
  -- axes and variant, and in full mode each seed; the jobs keep being numbered from zero.
  pub append_study_jobs-Planned :
      (n : ℕ) (default_params : Assoc Value) (output output' : Jobs)
      → Assoc.IsSorted experiment.matrix
      → Assoc.IsSorted study.axes
      → Planned n output
      → append_study_jobs experiment study case mode qualified explicit_params default_params output
        ≡ ok output'
      → Planned (n + case_jobs) output'
  unfolding append_study_jobs
  append_study_jobs-Planned n default_params output output' sm sa h e =
      let (experiment_rows, r1, e1) = bind-eq-ok (expand_valid_axes experiment.matrix) _ e in
      let (study_rows, r2, e2) = bind-eq-ok (expand_valid_axes study.axes) _ e1 in
      let seeds : List (Option ℕ) = effective_full_seeds study.seeds experiment.seeds in
      let variants = variant_rows study.variants in
      let (planned, r3, e3) =
        bind-eq-ok
          (planned_job_count (length experiment_rows) (length study_rows) (length variants)
            (length seeds) mode)
          _ e2 in
      let (roomy, room, e3r) =
        bind-eq-ok (with_capacity job_capacity (length output + planned)) _ e3 in
      let (base, r4, e4) =
        bind-eq-ok (base_params_value default_params experiment.params study.params case.params) _
          e3r in
      let (cells, r5, e5) =
        bind-eq-ok
          (append_rows experiment study case mode qualified explicit_params base seeds variants
            study_rows experiment_rows (output, 0))
          _ e4 in
      let all =
        rows-Planned n base seeds variants study_rows experiment_rows (output, 0) cells h r5 in
      let left : length experiment_rows ≡ size experiment.matrix =
        ap length (expand_valid_axes-choices experiment.matrix experiment_rows sm r1)
        ∙ length-choices experiment.matrix in
      let right : length study_rows ≡ size study.axes =
        ap length (expand_valid_axes-choices study.axes study_rows sa r2)
        ∙ length-choices study.axes in
      let same : cells.0 ≡ output' = cc e5 in
      subst (Planned (n + case_jobs)) same (
        Planned-same cells.0
          (ap
              (λ k.
                n + k * (length study_rows * (length variants * seed_count mode (length seeds))))
              left
            ∙ ap
                (λ k.
                  n
                  + size experiment.matrix
                    * (k * (length variants * seed_count mode (length seeds))))
                right)
          all)
