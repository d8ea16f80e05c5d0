-- ===== src/Study/Jobs/Each.antt =====
-- What all jobs of a study have, by what adding one of them keeps.
use research_lab.Prelude.{
  ◌+◌, Member, inl, inr, refl, ℕ, suc, Option, some, List, none, arith, [], ◌∷◌, length, All, ◌≡◌,
  subst,
}
use research_lab.Prelude.Text.{Text}
use research_lab.Prelude.Outcome.{RlabResult, RlabError, ok, bind-eq-ok, ok_or}
use research_lab.Prelude.Assoc.{Assoc}
use research_lab.Json.{Value}
use research_lab.Experiments.Matrix.{Row, expand_valid_axes, with_capacity}
use research_lab.Experiments.Planner.{ExperimentJob, job_capacity}
use research_lab.Study.{
  StudyMode, qualification, full, ExperimentDesign, StudyDesign, ExperimentCase, Qualification,
  RegistryStudyPlan, apply_runtime_overrides_value, value_to_params, base_params_value,
  effective_full_seeds, variant_rows, planned_job_count, reject_qualification_collisions,
}
use research_lab.Study.Jobs.{
  Jobs, push_study_job, push_seeded, push_cell, cell_params, append_variants, append_study_rows,
  append_rows, append_study_jobs, plan_cases, plan_study, no_cases,
}

pub known_design :
    (o : Option (RlabResult ExperimentDesign)) (x : RlabError) (found : RlabResult ExperimentDesign)
    (d : ExperimentDesign)
    → ok_or o x ≡ ok found
    → found ≡ ok d
    → o ≡ some (ok d)
known_design none x found d e f = ground arith
known_design (some r) x found d e f = ground arith

module _ (P : ExperimentJob → Type 0) (explicit : Assoc Value) (study : StudyDesign)
    (mode : StudyMode) (qualified : Qualification) where
  -- Adding a job of the case keeps the property of all jobs.
  abbrev pub PushKeeps : ExperimentDesign → ExperimentCase → Type 0
  PushKeeps experiment case =
      (output : Jobs) (variant : Option Text) (cell : ℕ) (params : Value) (final : Assoc Value)
      (seed : Option ℕ)
      → All P output
      → value_to_params (apply_runtime_overrides_value params explicit) ≡ ok final
      → All P (push_study_job output experiment.name case.condition variant cell final seed)

  module _ (experiment : ExperimentDesign) (case : ExperimentCase)
      (push : PushKeeps experiment case) where
    seeded-All :
        (variant : Option Text) (cell : ℕ) (params : Value) (seeds : List (Option ℕ))
        (output output' : Jobs)
        → All P output
        → push_seeded experiment study case mode qualified explicit variant cell params seeds output
          ≡ ok output'
        → All P output'
    unfolding push_seeded
    seeded-All variant cell params [] output output' h e =
        let same : output ≡ output' = cc e in subst (All P) same h
    seeded-All variant cell params (seed ∷ seeds) output output' h e =
        let (final, f, rest) =
          bind-eq-ok (value_to_params (apply_runtime_overrides_value params explicit)) _ e in
        seeded-All variant cell params seeds _ output'
          (push output variant cell params final seed h f) rest

    cell-All :
        (m : StudyMode) (variant : Option Text) (cell : ℕ) (params : Value)
        (seeds : List (Option ℕ)) (output output' : Jobs)
        → All P output
        → push_cell experiment study case mode qualified explicit m variant cell params seeds output
          ≡ ok output'
        → All P output'
    unfolding push_cell
    cell-All qualification variant cell params seeds output output' h e =
        let params' = apply_runtime_overrides_value params qualified.params in
        let (final, f, rest) =
          bind-eq-ok (value_to_params (apply_runtime_overrides_value params' explicit)) _ e in
        subst (All P) (cc rest) (push output variant cell params' final (some qualified.seed) h f)
    cell-All full variant cell params seeds output output' h e =
        seeded-All variant cell params seeds output output' h e

    variants-All :
        (base : Value) (seeds : List (Option ℕ)) (experiment_row study_row : Row)
        (variants : List (Option Text × Assoc Value)) (cells cells' : Jobs × ℕ)
        → All P cells.0
        → append_variants experiment study case mode qualified explicit base seeds experiment_row
            study_row variants cells
          ≡ ok cells'
        → All P cells'.0
    unfolding append_variants
    variants-All base seeds experiment_row study_row [] cells cells' h e =
        let same : cells.0 ≡ cells'.0 = cc e in subst (All P) same h
    variants-All base seeds experiment_row study_row ((variant, o) ∷ variants) cells cells' h e =
        let (params, p, e1) =
          bind-eq-ok
            (cell_params experiment study case mode qualified explicit base experiment_row study_row
              o)
            _ e in
        let (output, q, e2) =
          bind-eq-ok
            (push_cell experiment study case mode qualified explicit mode variant cells.1 params
              seeds cells.0)
            _ e1 in
        variants-All base seeds experiment_row study_row variants (output, suc cells.1) cells'
          (cell-All mode variant cells.1 params seeds cells.0 output h q) e2

    study_rows-All :
        (base : Value) (seeds : List (Option ℕ)) (variants : List (Option Text × Assoc Value))
        (experiment_row : Row) (rows : List Row) (cells cells' : Jobs × ℕ)
        → All P cells.0
        → append_study_rows experiment study case mode qualified explicit base seeds variants
            experiment_row rows cells
          ≡ ok cells'
        → All P cells'.0
    unfolding append_study_rows
    study_rows-All base seeds variants experiment_row [] cells cells' h e =
        let same : cells.0 ≡ cells'.0 = cc e in subst (All P) same h
    study_rows-All base seeds variants experiment_row (row ∷ rows) cells cells' h e =
        let (next, p, rest) =
          bind-eq-ok
            (append_variants experiment study case mode qualified explicit base seeds experiment_row
              row variants cells)
            _ e in
        study_rows-All base seeds variants experiment_row rows next cells'
          (variants-All base seeds experiment_row row variants cells next h p) rest

    rows-All :
        (base : Value) (seeds : List (Option ℕ)) (variants : List (Option Text × Assoc Value))
        (study_rows rows : List Row) (cells cells' : Jobs × ℕ)
        → All P cells.0
        → append_rows experiment study case mode qualified explicit base seeds variants study_rows
            rows cells
          ≡ ok cells'
        → All P cells'.0
    unfolding append_rows
    rows-All base seeds variants study_rows [] cells cells' h e =
        let same : cells.0 ≡ cells'.0 = cc e in subst (All P) same h
    rows-All base seeds variants study_rows (row ∷ rows) cells cells' h e =
        let (next, p, rest) =
          bind-eq-ok
            (append_study_rows experiment study case mode qualified explicit base seeds variants row
              study_rows cells)
            _ e in
        rows-All base seeds variants study_rows rows next cells'
          (study_rows-All base seeds variants row study_rows cells next h p) rest

    append-All :
        (default_params : Assoc Value) (output output' : Jobs)
        → All P output
        → append_study_jobs experiment study case mode qualified explicit default_params output
          ≡ ok output'
        → All P output'
    unfolding append_study_jobs
    append-All default_params output output' h e =
        let (experiment_rows, r1, e1) = bind-eq-ok (expand_valid_axes experiment.matrix) _ e in
        let (study_rows, r2, e2) = bind-eq-ok (expand_valid_axes study.axes) _ e1 in
        let seeds : List (Option ℕ) = effective_full_seeds study.seeds experiment.seeds in
        let variants = variant_rows study.variants in
        let (planned, r3, e3) =
          bind-eq-ok
            (planned_job_count (length experiment_rows) (length study_rows) (length variants)
              (length seeds) mode)
            _ e2 in
        let (roomy, room, e3r) =
          bind-eq-ok (with_capacity job_capacity (length output + planned)) _ e3 in
        let (base, r4, e4) =
          bind-eq-ok (base_params_value default_params experiment.params study.params case.params) _
            e3r in
        let (cells, r5, e5) =
          bind-eq-ok
            (append_rows experiment study case mode qualified explicit base seeds variants
              study_rows experiment_rows (output, 0))
            _ e4 in
        subst (All P) (cc e5)
          (rows-All base seeds variants study_rows experiment_rows (output, 0) cells h r5)

  -- Each of the cases keeps it, if its experiment is known.
  abbrev pub CasesKeep :
      (Text → Option (RlabResult ExperimentDesign)) → List ExperimentCase → Type 0
  CasesKeep designs cases =
      (case : ExperimentCase) (d : ExperimentDesign)
      → Member case cases
      → designs case.experiment ≡ some (ok d)
      → PushKeeps d case

  cases-All :
      (designs : Text → Option (RlabResult ExperimentDesign)) (name : Text)
      (default_params : Assoc Value) (cases : List ExperimentCase) (output output' : Jobs)
      → CasesKeep designs cases
      → All P output
      → plan_cases designs name study mode qualified default_params explicit cases output
        ≡ ok output'
      → All P output'
  unfolding plan_cases
  cases-All designs name default_params [] output output' keep h e =
      let same : output ≡ output' = cc e in subst (All P) same h
  cases-All designs name default_params (case ∷ cases) output output' keep h e =
      let (found, f, e1) = bind-eq-ok (ok_or (designs case.experiment) _) _ e in
      let (d, is_d, e2) = bind-eq-ok found _ e1 in
      let (u, clear, e3) =
        bind-eq-ok
          (reject_qualification_collisions d.name d.matrix study.axes study.variants
            qualified.params)
          _ e2 in
      let (next, made, rest) =
        bind-eq-ok (append_study_jobs d study case mode qualified explicit default_params output) _
          e3 in
      let known = known_design (designs case.experiment) _ found d f is_d in
      cases-All designs name default_params cases next output' (λ c d m. keep c d (inr m))
        (append-All d case (keep case d (inl refl) known) default_params output next h made) rest

  -- What each of its cases keeps, every job of a study that is planned has.
  pub plan_study-All :
      (designs : Text → Option (RlabResult ExperimentDesign)) (name : Text)
      (default_params : Assoc Value) (cases : List ExperimentCase) (plan : RegistryStudyPlan)
      → CasesKeep designs cases
      → plan_study designs name study mode qualified default_params explicit cases ≡ ok plan
      → All P plan.jobs
  unfolding plan_study
  plan_study-All designs name default_params cases plan keep e =
      let (u, some_case, e1) = bind-eq-ok (no_cases cases name) _ e in
      let (jobs, made, e2) =
        bind-eq-ok (plan_cases designs name study mode qualified default_params explicit cases []) _
          e1 in
      let same : jobs ≡ plan.jobs = cc e2 in
      subst (All P) same (cases-All designs name default_params cases [] jobs keep tt made)
