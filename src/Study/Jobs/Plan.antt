-- ===== src/Study/Jobs/Plan.antt =====
-- The jobs of a whole study, and their identifiers.
use research_lab.Prelude.{
  ℕ, zero, suc, ◌+◌, Option, none, some, List, [], ◌∷◌, ◌++◌, length, get_elem?, ◌≡◌, refl, sym, ap,
  subst, ◌∙◌, arith, All,
}
use research_lab.Prelude.Text.{Text}
use research_lab.Prelude.Decimal.{read_from}
use research_lab.Prelude.Outcome.{RlabResult, ok, err, bind-eq-ok, ok_or}
use research_lab.Prelude.Assoc
use research_lab.Prelude.Assoc.{Assoc}
use research_lab.Json.{Value}
use research_lab.Experiments.Planner.{ExperimentJob}
use research_lab.Study.{
  StudyMode, ExperimentDesign, StudyDesign, ExperimentCase, Qualification, RegistryStudyPlan,
  reject_qualification_collisions,
}
use research_lab.Study.Jobs.{Jobs, append_study_jobs, plan_cases, plan_study, no_cases}
use research_lab.Study.Jobs.Each.{known_design}
use research_lab.Study.Jobs.Slots.{Slot, Pairwise, Fills, case_slots}
use research_lab.Study.Jobs.Cells.{Filled, Filled-nothing, Filled-then}
use research_lab.Study.Jobs.Filled.{append_study_jobs-Filled}
use research_lab.Study.Jobs.Numbering.{Planned, IsNumbered, append_study_jobs-Planned, case_jobs}

-- The matrix of every design is a map, with its keys ascending.
abbrev pub IsSortedDesign : Option (RlabResult ExperimentDesign) → Type 0
IsSortedDesign none = Unit
IsSortedDesign (some (err x)) = Unit
IsSortedDesign (some (ok d)) = Assoc.IsSorted d.matrix

module _ (designs : Text → Option (RlabResult ExperimentDesign)) (name : Text) (study : StudyDesign)
    (mode : StudyMode) (qualified : Qualification)
    (default_params explicit_params : Assoc Value) where
  -- The jobs that a case adds, none if its experiment is not there.
  abbrev pub jobs_of_case : ExperimentCase → Option (RlabResult ExperimentDesign) → ℕ
  jobs_of_case case none = 0
  jobs_of_case case (some (err e)) = 0
  jobs_of_case case (some (ok d)) = case_jobs d study case mode qualified explicit_params

  abbrev pub jobs_of_cases : List ExperimentCase → ℕ
  jobs_of_cases [] = 0
  jobs_of_cases (case ∷ cases) = jobs_of_case case (designs case.experiment) + jobs_of_cases cases

  cases-Planned :
      (n : ℕ) (cases : List ExperimentCase) (output output' : Jobs)
      → Assoc.IsSorted study.axes
      → All (λ case. IsSortedDesign (designs case.experiment)) cases
      → Planned n output
      → plan_cases designs name study mode qualified default_params explicit_params cases output
        ≡ ok output'
      → Planned (n + jobs_of_cases cases) output'
  unfolding plan_cases
  cases-Planned n [] output output' sa sd h e =
      let same : output ≡ output' = cc e in
      subst (λ k. Planned k output') (omega arith) (subst (Planned n) same h)
  cases-Planned n (case ∷ cases) output output' sa sd h e =
      let (found, f, e1) = bind-eq-ok (ok_or (designs case.experiment) _) _ e in
      let (d, is_d, e2) = bind-eq-ok found _ e1 in
      let (u, clear, e3) =
        bind-eq-ok
          (reject_qualification_collisions d.name d.matrix study.axes study.variants
            qualified.params)
          _ e2 in
      let (next, made, rest) =
        bind-eq-ok
          (append_study_jobs d study case mode qualified explicit_params default_params output) _
          e3 in
      let known : designs case.experiment ≡ some (ok d) =
        known_design (designs case.experiment) _ found d f is_d in
      let count : jobs_of_case case (designs case.experiment)
          ≡ case_jobs d study case mode qualified explicit_params =
        ap (jobs_of_case case) known in
      let here =
        append_study_jobs-Planned d study case mode qualified explicit_params n default_params
          output next (subst IsSortedDesign known sd.0) sa h made in
      subst (λ k. Planned k output')
        (ap (λ k. n + k + jobs_of_cases cases) (sym count) ∙ omega arith)
        (cases-Planned (n + case_jobs d study case mode qualified explicit_params) cases next
          output' sa sd.1 here rest)

  -- The slots of a case, none if its experiment is not there.
  abbrev pub slots_of_case : ExperimentCase → Option (RlabResult ExperimentDesign) → List Slot
  slots_of_case case none = []
  slots_of_case case (some (err e)) = []
  slots_of_case case (some (ok d)) =
      case_slots study mode qualified default_params explicit_params d case

  abbrev pub slots_of_cases : List ExperimentCase → List Slot
  slots_of_cases [] = []
  slots_of_cases (case ∷ cases) =
      slots_of_case case (designs case.experiment) ++ slots_of_cases cases

  cases-Filled :
      (cases : List ExperimentCase) (output output' : Jobs)
      → Assoc.IsSorted study.axes
      → All (λ case. IsSortedDesign (designs case.experiment)) cases
      → plan_cases designs name study mode qualified default_params explicit_params cases output
        ≡ ok output'
      → Filled study mode qualified default_params explicit_params
          (slots_of_cases cases)
          output
          output'
  unfolding plan_cases
  cases-Filled [] output output' sa sd e =
      Filled-nothing study mode qualified default_params explicit_params output output' (cc e)
  cases-Filled (case ∷ cases) output output' sa sd e =
      let (found, f, e1) = bind-eq-ok (ok_or (designs case.experiment) _) _ e in
      let (d, is_d, e2) = bind-eq-ok found _ e1 in
      let (u, clear, e3) =
        bind-eq-ok
          (reject_qualification_collisions d.name d.matrix study.axes study.variants
            qualified.params)
          _ e2 in
      let (next, made, rest) =
        bind-eq-ok
          (append_study_jobs d study case mode qualified explicit_params default_params output) _
          e3 in
      let known : designs case.experiment ≡ some (ok d) =
        known_design (designs case.experiment) _ found d f is_d in
      let here =
        append_study_jobs-Filled study mode qualified default_params explicit_params d case output
          next (subst IsSortedDesign known sd.0) sa made in
      Filled-then study mode qualified default_params explicit_params
        (slots_of_case case (designs case.experiment)) (slots_of_cases cases) output next output'
        (subst
          (λ o.
            Filled study mode qualified default_params explicit_params (slots_of_case case o) output
              next)
          (sym known) here)
        (cases-Filled cases next output' sa sd.1 rest)

numbered_at :
    (k n : ℕ) (jobs : Jobs) (job : ExperimentJob)
    → IsNumbered k jobs
    → get_elem? jobs n ≡ some job
    → read_from 0 job.job_id ≡ k + n
numbered_at k n [] job h e = cc
numbered_at k zero (j ∷ jobs) job h e =
    let same : j ≡ job = cc e in
    subst (λ j. read_from 0 j.job_id ≡ k + zero) same (h.0 ∙ omega arith)
numbered_at k (suc n) (j ∷ jobs) job h e = numbered_at (suc k) n jobs job h.1 e ∙ omega arith

-- The jobs of a study that is planned are, in this order, those of its slots: for each case, each row of
-- the matrix of its experiment, each row of the study's axes and each variant, one slot in
-- qualification mode, with the qualification's seed, and in full mode one for each seed. The job
-- of a slot has the names of the experiment, condition and variant, the number of the cell and the
-- seed; its parameters are the base parameters of the case, overridden in turn by the row of the
-- experiment, the row of the study, the variant, in qualification mode the qualification, and the
-- explicit parameters. There are as many jobs as the products of the numbers of these say, and the
-- identifier of a job spells its place in the whole plan, so that no two jobs share one.
pub plan_study-Planned :
    (designs : Text → Option (RlabResult ExperimentDesign)) (name : Text) (study : StudyDesign)
    (mode : StudyMode) (qualified : Qualification) (default_params explicit_params : Assoc Value)
    (cases : List ExperimentCase) (plan : RegistryStudyPlan) (n : ℕ) (job : ExperimentJob)
    → Assoc.IsSorted study.axes
    → All (λ case. IsSortedDesign (designs case.experiment)) cases
    → plan_study designs name study mode qualified default_params explicit_params cases ≡ ok plan
    → get_elem? plan.jobs n ≡ some job
    → Pairwise
        (Fills study mode qualified default_params explicit_params)
        (slots_of_cases designs name study mode qualified default_params explicit_params cases)
        plan.jobs
      × (length plan.jobs
          ≡ jobs_of_cases designs name study mode qualified default_params explicit_params cases)
      × (read_from 0 job.job_id ≡ n)
unfolding plan_study
plan_study-Planned designs name study mode qualified default_params explicit_params cases plan n job
      sa sd e at_n =
    let (u, some_case, e1) = bind-eq-ok (no_cases cases name) _ e in
    let (jobs, made, e2) =
      bind-eq-ok
        (plan_cases designs name study mode qualified default_params explicit_params cases []) _
        e1 in
    let same : jobs ≡ plan.jobs = cc e2 in
    let all =
      cases-Planned designs name study mode qualified default_params explicit_params 0 cases [] jobs
        sa sd (tt, refl) made in
    let planned = subst (Planned _) same all in
    let (added, is_added, fills) =
      cases-Filled designs name study mode qualified default_params explicit_params cases [] jobs sa
        sd made in
    (
      subst (Pairwise _ _) (sym is_added ∙ same) fills,
      planned.1 ∙ omega arith,
      numbered_at 0 n plan.jobs job planned.0 at_n ∙ omega arith,
    )
