-- ===== src/Study/Tests.antt =====
-- Runs at concrete inputs.
use research_lab.Prelude.{◌≡◌, ◌↔◌, refl, ℕ, false, Option, none, some, [], ◌∷◌, length, All}
use research_lab.Prelude.Text.{
  Text, txt, text_eq, text_cmp, has_char, split, cons_head, is_blank, is_whitespace,
}
use research_lab.Prelude.Decimal.{read_from, padded}
use research_lab.Prelude.Outcome.{RlabResult, ok}
use research_lab.Prelude.Assoc
use research_lab.Prelude.Assoc.{Assoc, contains_key, keys}
use research_lab.Json.{Value, number, Number, get_field, insert_field}
use research_lab.Documents.{apply_dotted_overrides, set_path}
use research_lab.Experiments.Matrix.{
  Axes, expand_valid_axes, validate_axes, expand_axes, with_capacity, grid_size, grid_size_from,
  checked_product, expand_from, extend_rows, extend_row,
}
use research_lab.Experiments.Planner.{ExperimentJob}
use research_lab.Study.{
  full, ExperimentDesign, StudyDesign, ExperimentCase, Qualification, RegistryStudyPlan,
  reject_qualification_collisions, collisions, extend_params_object, apply_declared_overrides_value,
  apply_runtime_override, apply_runtime_overrides_value, value_to_params, base_params_value,
  effective_full_seeds, variant_rows, planned_job_count,
}
use research_lab.Study.Collisions.{IsFree, reject_qualification_collisions-eq-ok_iff}
use research_lab.Study.Jobs.{plan_study, plan_cases, push_study_job, append_study_jobs}
use research_lab.Study.Jobs.Plan.{jobs_of_cases, slots_of_cases, plan_study-Planned}
use research_lab.Study.Jobs.Slots.{Pairwise, Fills}
use research_lab.Study.Jobs.Explicit.{Holds, plan_study-Holds}

abbrev int : ℕ → Value
int n = number (Number.pos_int n)

abbrev widths : Axes
widths = (txt "width", int 1 ∷ int 2 ∷ []) ∷ []

abbrev scaling : ExperimentDesign
scaling = record { name = txt "scaling"; params = []; matrix = widths; seeds = 7 ∷ [] }

abbrev designs : Text → Option (RlabResult ExperimentDesign)
designs name = some (ok scaling)

abbrev study : StudyDesign
study = record { params = []; axes = []; variants = []; conditions = []; seeds = [] }

abbrev case : ExperimentCase
case = record { condition = none; experiment = txt "scaling"; params = [] }

abbrev qualified : Qualification
qualified = record { params = []; seed = 42 }

abbrev explicit : Assoc Value
explicit = (txt "words", int 50) ∷ []

abbrev job_at : Text → ℕ → Value → ExperimentJob
job_at id cell width = record {
  schema_version = 1;
  job_id = id;
  experiment = txt "scaling";
  condition = none;
  variant = none;
  cell = some cell;
  params = (txt "width", width) ∷ (txt "words", int 50) ∷ [];
  seed = some 7;
}

abbrev plan : RegistryStudyPlan
plan = record {
  schema_version = 1;
  study = txt "all";
  mode = full;
  jobs = job_at (txt "0000") 0 (int 1) ∷ job_at (txt "0001") 1 (int 2) ∷ [];
}

plans : plan_study designs (txt "all") study full qualified [] explicit (case ∷ []) ≡ ok plan
unfolding plan_study plan_cases append_study_jobs reject_qualification_collisions collisions keys
    expand_valid_axes validate_axes is_blank is_whitespace expand_axes grid_size grid_size_from
    checked_product with_capacity expand_from extend_rows extend_row Assoc.insert text_cmp text_eq
    base_params_value extend_params_object apply_declared_overrides_value apply_dotted_overrides
    set_path split cons_head has_char get_field insert_field effective_full_seeds variant_rows
    planned_job_count value_to_params apply_runtime_overrides_value apply_runtime_override
    push_study_job padded
plans = refl

widths-IsSorted : Assoc.IsSorted widths
widths-IsSorted = (tt, tt)

plan_study-Planned_example :
    Pairwise
      (Fills study full qualified [] explicit)
      (slots_of_cases designs (txt "all") study full qualified [] explicit (case ∷ []))
      plan.jobs
    × (length plan.jobs
        ≡ jobs_of_cases designs (txt "all") study full qualified [] explicit (case ∷ []))
    × (read_from 0 (txt "0001") ≡ 1)
plan_study-Planned_example =
    plan_study-Planned designs (txt "all") study full qualified [] explicit (case ∷ []) plan 1
      (job_at (txt "0001") 1 (int 2)) tt (widths-IsSorted, tt) plans refl

words_flat : has_char b'.' (txt "words") ≡ false
unfolding has_char
words_flat = refl

plan_study-Holds_example : All (Holds (txt "words") (int 50)) plan.jobs
plan_study-Holds_example =
    plan_study-Holds (txt "words") (int 50) [] [] study full qualified designs (txt "all") []
      (case ∷ []) plan words_flat tt plans

reject_qualification_collisions-eq-ok_iff_example :
    (reject_qualification_collisions (txt "scaling") widths [] [] explicit ≡ ok tt)
    ↔ All (IsFree widths [] []) (keys explicit)
reject_qualification_collisions-eq-ok_iff_example =
    reject_qualification_collisions-eq-ok_iff (txt "scaling") widths [] [] explicit
