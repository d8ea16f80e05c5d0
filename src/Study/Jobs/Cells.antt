-- ===== src/Study/Jobs/Cells.antt =====
-- The jobs of one cell of a study fill its slots.
use research_lab.Prelude.{ℕ, false, Option, some, List, [], ◌∷◌, ◌++◌, map, ◌≡◌, refl, subst, ◌∙◌}
use research_lab.Prelude.Text.{Text}
use research_lab.Prelude.Outcome.{ok, bind-eq-ok}
use research_lab.Prelude.Assoc.{Assoc}
use research_lab.Json.{Value}
use research_lab.Documents.{apply_dotted_overrides}
use research_lab.Experiments.Matrix.{Row}
use research_lab.Study.{
  StudyMode, qualification, full, ExperimentDesign, StudyDesign, ExperimentCase, Qualification,
  apply_runtime_overrides_value, value_to_params, base_params_value,
}
use research_lab.Study.Jobs.{Jobs, push_study_job, push_seeded, push_cell, cell_params}
use research_lab.Study.Jobs.Slots.{
  Slot, Adds, Adds-nothing, Adds-then, Fills, by_mode, slot_params, slot_at, job_seeds,
}

module _ (study : StudyDesign) (mode : StudyMode) (qualified : Qualification)
    (default_params explicit_params : Assoc Value) where
  abbrev pub Filled : List Slot → Jobs → Jobs → Type 0
  Filled slots old made =
      Adds (Fills study mode qualified default_params explicit_params) slots old made

  pub Filled-nothing : (old made : Jobs) → old ≡ made → Filled [] old made
  Filled-nothing old made e =
      Adds-nothing (Fills study mode qualified default_params explicit_params) old made e

  pub Filled-then :
      (slots slots' : List Slot) (a b c : Jobs)
      → Filled slots a b
      → Filled slots' b c
      → Filled (slots ++ slots') a c
  Filled-then slots slots' a b c h h' =
      Adds-then (Fills study mode qualified default_params explicit_params) slots slots' a b c h h'

  module _ (design : ExperimentDesign) (case : ExperimentCase) where
    abbrev at : Row → Row → Option Text × Assoc Value → ℕ → Option ℕ → Slot
    at e s v c k = slot_at study mode qualified default_params explicit_params design case e s v c k

    -- One more job.
    push-Filled :
        (s : Slot) (output : Jobs) (final : Assoc Value)
        → slot_params study mode qualified default_params explicit_params s ≡ ok final
        → Filled
            (s ∷ [])
            output
            (push_study_job output s.design.name s.case.condition s.variant.0 s.cell final s.seed)
    unfolding push_study_job
    push-Filled s output final e = (_, refl, ((refl, refl, refl, refl, refl, e), tt))

    module _ (base : Value)
        (based : base_params_value default_params design.params study.params case.params
          ≡ ok base) where
      -- The parameters of a cell are those of its slots, before the mode and the explicit ones.
      pub cell_params-slot :
          (experiment_row study_row : Row) (variant : Option Text × Assoc Value) (cell : ℕ)
          (seed : Option ℕ) (params : Value)
          → cell_params design study case mode qualified explicit_params base experiment_row
              study_row variant.1
            ≡ ok params
          → slot_params study mode qualified default_params explicit_params
              (at experiment_row study_row variant cell seed)
            ≡ value_to_params (
                apply_runtime_overrides_value
                  (by_mode study mode qualified default_params explicit_params mode params)
                  explicit_params)
      unfolding cell_params
      cell_params-slot experiment_row study_row variant cell seed params e =
          let (p, e1, r1) = bind-eq-ok (apply_dotted_overrides base experiment_row false) _ e in
          let (q, e2, r2) = bind-eq-ok (apply_dotted_overrides p study_row false) _ r1 in
          rw (based, e1, e2, r2) refl

      module _ (experiment_row study_row : Row) (variant : Option Text × Assoc Value) (cell : ℕ)
          (params : Value) where
        abbrev here : Option ℕ → Slot
        here = at experiment_row study_row variant cell

        -- What the slots of the cell hold, in the mode `m`.
        abbrev HoldsCell : StudyMode → Type 0
        HoldsCell m =
            (seed : Option ℕ)
            → slot_params study mode qualified default_params explicit_params (here seed)
              ≡ value_to_params (
                  apply_runtime_overrides_value
                    (by_mode study mode qualified default_params explicit_params m params)
                    explicit_params)

        seeded-Filled :
            (seeds : List (Option ℕ)) (output output' : Jobs)
            → HoldsCell full
            → push_seeded design study case mode qualified explicit_params variant.0 cell params
                seeds output
              ≡ ok output'
            → Filled (map here seeds) output output'
        unfolding push_seeded
        seeded-Filled [] output output' h e = Filled-nothing output output' (cc e)
        seeded-Filled (seed ∷ seeds) output output' h e =
            let (final, f, rest) =
              bind-eq-ok (value_to_params (apply_runtime_overrides_value params explicit_params)) _
                e in
            Filled-then (here seed ∷ []) (map here seeds) output _ output'
              (push-Filled (here seed) output final (h seed ∙ f))
              (seeded-Filled seeds _ output' h rest)

        pub cell-Filled :
            (m : StudyMode) (seeds : List (Option ℕ)) (output output' : Jobs)
            → HoldsCell m
            → push_cell design study case mode qualified explicit_params m variant.0 cell params
                seeds output
              ≡ ok output'
            → Filled
                (map here (job_seeds study mode qualified default_params explicit_params m seeds))
                output
                output'
        unfolding push_cell
        cell-Filled qualification seeds output output' h e =
            let (final, f, rest) =
              bind-eq-ok
                (value_to_params (
                  apply_runtime_overrides_value
                    (apply_runtime_overrides_value params qualified.params) explicit_params))
                _ e in
            let seed = some qualified.seed in
            subst (Filled (here seed ∷ []) output) (cc rest)
              (push-Filled (here seed) output final (h seed ∙ f))
        cell-Filled full seeds output output' h e = seeded-Filled seeds output output' h e
