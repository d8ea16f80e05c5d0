-- ===== src/Study/Cases/Tests.antt =====
-- A registered study, planned.
use research_lab.Prelude.{◌≡◌, refl, ℕ, none, some, [], ◌∷◌}
use research_lab.Prelude.Text.{
  Text, txt, text_eq, text_cmp, has_char, split, cons_head, is_blank, is_whitespace,
}
use research_lab.Prelude.Decimal.{padded}
use research_lab.Prelude.Outcome.{ok}
use research_lab.Prelude.Assoc
use research_lab.Prelude.Assoc.{Assoc, contains_key, keys}
use research_lab.Json.{
  Value, number, Number, string, array, cons, nil, object, end, field, get_field, insert_field,
}
use research_lab.Documents.{apply_dotted_overrides, set_path}
use research_lab.Registry.{Registry, RegistryRecord, find_ref, has_identity, records_by_kind_ref}
use research_lab.Experiments.Matrix.{
  expand_valid_axes, validate_axes, expand_axes, with_capacity, grid_size, grid_size_from,
  checked_product, expand_from, extend_rows, extend_row,
}
use research_lab.Experiments.Planner.{ExperimentJob}
use research_lab.Study.{
  full, RegistryStudyPlan, reject_qualification_collisions, collisions, extend_params_object,
  apply_declared_overrides_value, apply_runtime_override, apply_runtime_overrides_value,
  value_to_params, base_params_value, effective_full_seeds, variant_rows, planned_job_count,
}
use research_lab.Study.Decode.{
  metadata_value, decode_params, all_some, decode_seeds, decode_axes, decode_record_metadata,
  string_array_value, optional_params, parse_experiment_design, parse_condition, conditions_from,
  parse_conditions, variants_of, parse_variants, parse_study_design, parse_qualification,
}
use research_lab.Study.Jobs.{plan_study, plan_cases, push_study_job, append_study_jobs}
use research_lab.Study.Cases.{
  experiment_lookup, cases_of, study_experiment_cases, experiment_designs, plan_registry_study,
}
use research_lab.Study.Cases.Planned.{PlannedFrom, plan_registry_study-PlannedFrom}

abbrev record_of : Text → Text → Assoc Value → RegistryRecord
record_of kind name metadata = record {
  schema_version = 1;
  kind = kind;
  name = name;
  version = txt "0.1.0";
  module_name = txt "lab";
  qualname = name;
  source = txt "lab.py" ∷ [];
  tags = [];
  description = [];
  metadata = metadata;
}

abbrev int : ℕ → Value
int n = number (Number.pos_int n)

abbrev condition : Text → ℕ → Value
condition name width = object (
    field (txt "experiment") (string (txt "sweep")) (
      field (txt "name") (string name)
        (field (txt "params") (object (field (txt "width") (int width) end)) end)))

abbrev widths : RegistryRecord
widths = record_of (txt "study") (txt "widths") (
    (
      txt "conditions",
      array (cons (condition (txt "thin") 1) (cons (condition (txt "wide") 9) nil)),
    )
    ∷ [])

abbrev lab : Registry
lab = record {
  schema_version = 1;
  records = record_of (txt "experiment") (txt "sweep") [] ∷ widths ∷ [];
}

abbrev job_of : Text → Text → ℕ → ExperimentJob
job_of id name width = record {
  schema_version = 1;
  job_id = id;
  experiment = txt "sweep";
  condition = some name;
  variant = none;
  cell = some 0;
  params = (txt "width", int width) ∷ [];
  seed = none;
}

abbrev plan : RegistryStudyPlan
plan = record {
  schema_version = 1;
  study = txt "widths";
  mode = full;
  jobs = job_of (txt "0000") (txt "thin") 1 ∷ job_of (txt "0001") (txt "wide") 9 ∷ [];
}

plans : plan_registry_study lab (txt "widths") full [] [] ≡ ok plan
unfolding plan_registry_study find_ref has_identity records_by_kind_ref metadata_value decode_params
    all_some decode_seeds decode_axes decode_record_metadata string_array_value optional_params
    parse_experiment_design parse_condition conditions_from parse_conditions variants_of
    parse_variants parse_study_design parse_qualification experiment_lookup cases_of
    study_experiment_cases experiment_designs contains_key Assoc.get plan_study plan_cases
    append_study_jobs reject_qualification_collisions collisions keys expand_valid_axes
    validate_axes is_blank is_whitespace expand_axes grid_size grid_size_from checked_product
    with_capacity expand_from extend_rows extend_row Assoc.insert text_cmp text_eq base_params_value
    extend_params_object apply_declared_overrides_value apply_dotted_overrides set_path split
    cons_head has_char get_field insert_field effective_full_seeds variant_rows planned_job_count
    value_to_params apply_runtime_overrides_value apply_runtime_override push_study_job padded
plans = refl

plan_registry_study-PlannedFrom_example : PlannedFrom lab (txt "widths") plan
plan_registry_study-PlannedFrom_example =
    plan_registry_study-PlannedFrom lab (txt "widths") full [] [] plan plans
