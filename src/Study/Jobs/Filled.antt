-- ===== src/Study/Jobs/Filled.antt =====
-- The loops of a study fill their slots, in order.
use research_lab.Prelude.{ℕ, suc, ◌+◌, ◌*◌, Option, List, [], ◌∷◌, length, ◌≡◌, sym, ap, ◌∙◌, arith}
use research_lab.Prelude.Text.{Text}
use research_lab.Prelude.Outcome.{ok, bind-eq-ok}
use research_lab.Prelude.Assoc
use research_lab.Prelude.Assoc.{Assoc}
use research_lab.Json.{Value}
use research_lab.Experiments.Matrix.{Row, expand_valid_axes, with_capacity}
use research_lab.Experiments.Matrix.Choices.{choices}
use research_lab.Experiments.Matrix.Expansion.{expand_valid_axes-choices}
use research_lab.Experiments.Planner.{job_capacity}
use research_lab.Study.{
  StudyMode, ExperimentDesign, StudyDesign, ExperimentCase, Qualification, base_params_value,
  effective_full_seeds, variant_rows, planned_job_count,
}
use research_lab.Study.Jobs.{
  Jobs, push_cell, cell_params, append_variants, append_study_rows, append_rows, append_study_jobs,
}
use research_lab.Study.Jobs.Cells.{
  Filled, Filled-nothing, Filled-then, cell-Filled, cell_params-slot,
}
use research_lab.Study.Jobs.Slots.{variant_slots, study_slots, row_slots, case_slots}

module _ (study : StudyDesign) (mode : StudyMode) (qualified : Qualification)
    (default_params explicit_params : Assoc Value) where
  module _ (design : ExperimentDesign) (case : ExperimentCase) where
    module _ (base : Value)
        (based : base_params_value default_params design.params study.params case.params
          ≡ ok base) where
      variants-Filled :
          (seeds : List (Option ℕ)) (experiment_row study_row : Row)
          (variants : List (Option Text × Assoc Value)) (cells cells' : Jobs × ℕ)
          → append_variants design study case mode qualified explicit_params base seeds
              experiment_row study_row variants cells
            ≡ ok cells'
          → Filled study mode qualified default_params explicit_params
              (variant_slots study mode qualified default_params explicit_params design case seeds
                experiment_row study_row variants cells.1)
              cells.0
              cells'.0
            × (cells'.1 ≡ cells.1 + length variants)
      unfolding append_variants
      variants-Filled seeds experiment_row study_row [] cells cells' e =
          let same : cells ≡ cells' = cc e in
          (
            Filled-nothing study mode qualified default_params explicit_params cells.0 cells'.0
                (ap (λ c. c.0) same),
            sym (ap (λ c. c.1) same) ∙ omega arith,
          )
      variants-Filled seeds experiment_row study_row ((variant, over) ∷ variants) cells cells' e =
          let (params, p, e1) =
            bind-eq-ok
              (cell_params design study case mode qualified explicit_params base experiment_row
                study_row over)
              _ e in
          let (output, q, e2) =
            bind-eq-ok
              (push_cell design study case mode qualified explicit_params mode variant cells.1
                params seeds cells.0)
              _ e1 in
          let (later, counted) =
            variants-Filled seeds experiment_row study_row variants (output, suc cells.1) cells'
              e2 in
          (
            Filled-then study mode qualified default_params explicit_params _ _ cells.0 output
                cells'.0
                (cell-Filled study mode qualified default_params explicit_params design case base
                  based experiment_row study_row (variant, over) cells.1 params mode seeds cells.0
                  output
                  (λ seed.
                    cell_params-slot study mode qualified default_params explicit_params design case
                      base based experiment_row study_row (variant, over) cells.1 seed params p)
                  q)
                later,
            omega (arith, counted),
          )

      study_rows-Filled :
          (seeds : List (Option ℕ)) (variants : List (Option Text × Assoc Value))
          (experiment_row : Row) (rows : List Row) (cells cells' : Jobs × ℕ)
          → append_study_rows design study case mode qualified explicit_params base seeds variants
              experiment_row rows cells
            ≡ ok cells'
          → Filled study mode qualified default_params explicit_params
              (study_slots study mode qualified default_params explicit_params design case seeds
                variants experiment_row rows cells.1)
              cells.0
              cells'.0
            × (cells'.1 ≡ cells.1 + length rows * length variants)
      unfolding append_study_rows
      study_rows-Filled seeds variants experiment_row [] cells cells' e =
          let same : cells ≡ cells' = cc e in
          (
            Filled-nothing study mode qualified default_params explicit_params cells.0 cells'.0
                (ap (λ c. c.0) same),
            sym (ap (λ c. c.1) same) ∙ omega arith,
          )
      study_rows-Filled seeds variants experiment_row (row ∷ rows) cells cells' e =
          let (next, p, rest) =
            bind-eq-ok
              (append_variants design study case mode qualified explicit_params base seeds
                experiment_row row variants cells)
              _ e in
          let (here, moved) = variants-Filled seeds experiment_row row variants cells next p in
          let (later, counted) =
            study_rows-Filled seeds variants experiment_row rows next cells' rest in
          (
            Filled-then study mode qualified default_params explicit_params _ _ cells.0 next.0
                cells'.0 here (rw (← moved) later),
            omega (arith, counted, moved),
          )

      rows-Filled :
          (seeds : List (Option ℕ)) (variants : List (Option Text × Assoc Value))
          (study_rows rows : List Row) (cells cells' : Jobs × ℕ)
          → append_rows design study case mode qualified explicit_params base seeds variants
              study_rows rows cells
            ≡ ok cells'
          → Filled study mode qualified default_params explicit_params
              (row_slots study mode qualified default_params explicit_params design case seeds
                variants study_rows rows cells.1)
              cells.0
              cells'.0
      unfolding append_rows
      rows-Filled seeds variants study_rows [] cells cells' e =
          let same : cells ≡ cells' = cc e in
          Filled-nothing study mode qualified default_params explicit_params cells.0 cells'.0
            (ap (λ c. c.0) same)
      rows-Filled seeds variants study_rows (row ∷ rows) cells cells' e =
          let (next, p, rest) =
            bind-eq-ok
              (append_study_rows design study case mode qualified explicit_params base seeds
                variants row study_rows cells)
              _ e in
          let (here, moved) = study_rows-Filled seeds variants row study_rows cells next p in
          let later = rows-Filled seeds variants study_rows rows next cells' rest in
          Filled-then study mode qualified default_params explicit_params _ _ cells.0 next.0
            cells'.0 here (rw (← moved) later)

      rows_choices-Filled :
          (study_rows rows : List Row) (output output' : Jobs) (cells : Jobs × ℕ)
          → rows ≡ choices design.matrix
          → study_rows ≡ choices study.axes
          → cells.0 ≡ output'
          → append_rows design study case mode qualified explicit_params base
              (effective_full_seeds study.seeds design.seeds)
              (variant_rows study.variants)
              study_rows
              rows
              (output, 0)
            ≡ ok cells
          → Filled study mode qualified default_params explicit_params
              (case_slots study mode qualified default_params explicit_params design case)
              output
              output'
      rows_choices-Filled study_rows rows output output' cells outer inner same e =
          rw (← outer, ← inner, ← same)
            (rows-Filled (effective_full_seeds study.seeds design.seeds)
              (variant_rows study.variants) study_rows rows (output, 0) cells e)

    -- A case that is planned fills its slots.
    pub append_study_jobs-Filled :
        (output output' : Jobs)
        → Assoc.IsSorted design.matrix
        → Assoc.IsSorted study.axes
        → append_study_jobs design study case mode qualified explicit_params default_params output
          ≡ ok output'
        → Filled study mode qualified default_params explicit_params
            (case_slots study mode qualified default_params explicit_params design case)
            output
            output'
    unfolding append_study_jobs
    append_study_jobs-Filled output output' sm sa e =
        let (experiment_rows, r1, e1) = bind-eq-ok (expand_valid_axes design.matrix) _ e in
        let (study_rows, r2, e2) = bind-eq-ok (expand_valid_axes study.axes) _ e1 in
        let seeds : List (Option ℕ) = effective_full_seeds study.seeds design.seeds in
        let variants = variant_rows study.variants in
        let (planned, r3, e3) =
          bind-eq-ok
            (planned_job_count (length experiment_rows) (length study_rows) (length variants)
              (length seeds) mode)
            _ e2 in
        let (roomy, room, e3r) =
          bind-eq-ok (with_capacity job_capacity (length output + planned)) _ e3 in
        let (base, based, e4) =
          bind-eq-ok (base_params_value default_params design.params study.params case.params) _
            e3r in
        let (cells, r5, e5) =
          bind-eq-ok
            (append_rows design study case mode qualified explicit_params base seeds variants
              study_rows experiment_rows (output, 0))
            _ e4 in
        rows_choices-Filled base based study_rows experiment_rows output output' cells
          (expand_valid_axes-choices design.matrix experiment_rows sm r1)
          (expand_valid_axes-choices study.axes study_rows sa r2) (cc e5) r5
