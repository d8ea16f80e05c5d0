-- ===== src/Study/Cases.antt =====
-- The cases of a study, from its conditions or from the experiments that it lists and selects, and
-- `plan_registry_study` (crates/rlab-core/src/study/registry.rs).
pub mod Labels
pub mod Planned
mod Tests
use research_lab.Prelude.{
  Bool, true, false, ◌&&◌, not, ◌||◌, Option, none, some, List, [], ◌∷◌, ◌++◌, map, any, all,
  keep_if,
}
use research_lab.Prelude.Text.{Text, txt, text_eq}
use research_lab.Prelude.Outcome.{
  RlabResult, ok, err, validation, format, ◌>>=◌, ◌>>◌, ensure, ok_or,
}
use research_lab.Prelude.Assoc
use research_lab.Prelude.Assoc.{Assoc}
use research_lab.Json.{Value, Fields, end, field, get_field, as_object, as_str}
use research_lab.Json.Equality.{value_eq}
use research_lab.Registry.{
  RegistryKind, RegistryRecord, Registry, find_ref, records_by_kind_ref, parse_kind,
}
use research_lab.Study.{
  StudyMode, ExperimentDesign, StudyDesign, ConditionDesign, ExperimentCase, RegistryStudyPlan,
}
use research_lab.Study.Decode.{
  string_array_value, parse_qualification, parse_study_design, parse_experiment_design,
}
use research_lab.Study.Jobs.{plan_study}

lookup_from : Assoc RegistryRecord → List RegistryRecord → Assoc RegistryRecord
lookup_from found [] = found
lookup_from found (r ∷ rs) = lookup_from (Assoc.insert r.name r found) rs

unfoldable pub experiment_lookup : Registry → Assoc RegistryRecord
unfolding lookup_from records_by_kind_ref
experiment_lookup g = lookup_from [] (records_by_kind_ref g (txt "experiment"))

metadata_holds : Fields → Assoc Value → Bool
metadata_holds end metadata = true
metadata_holds (field key value m) metadata =
    elim (Assoc.get key metadata) [ none ↦ false | some v ↦ value_eq v value ]
    && metadata_holds m metadata

metadata_matches : Option Fields → Assoc Value → Bool
unfolding metadata_holds
metadata_matches none metadata = true
metadata_matches (some expected) metadata = metadata_holds expected metadata

unfoldable pub records_matching : Registry → RegistryKind → List Text → Option Fields → List Text
unfolding records_by_kind_ref metadata_matches
records_matching g kind tags metadata =
    map (λ r. r.name)
      (keep_if (λ r. metadata_matches metadata r.metadata)
        (keep_if (λ r. all (λ tag. any (text_eq tag) r.tags) tags) (records_by_kind_ref g kind)))

selector_kind : Option Value → RlabResult Text
selector_kind none = ok (txt "experiment")
selector_kind (some v) =
    ok_or (as_str v) (validation (format "study experiment_selector kind must be a string" []))

selector_metadata : Option Value → RlabResult (Option Fields)
selector_metadata none = ok none
selector_metadata (some v) = do
  fields ←
      ok_or (as_object v)
        (validation (format "study experiment_selector metadata must be an object" []))
  ok (some fields)

selected : Registry → Option Value → RlabResult (List Text)
unfolding selector_kind selector_metadata parse_kind string_array_value records_matching
selected g none = ok []
selected g (some value) = do
  fields ←
      ok_or (as_object value) (validation (format "study experiment_selector must be an object" []))
  text ← selector_kind (get_field (txt "kind") fields)
  kind ← parse_kind text
  tags ← string_array_value (get_field (txt "tags") fields) (txt "study experiment_selector tags")
  metadata ← selector_metadata (get_field (txt "metadata") fields)
  ok (records_matching g kind tags metadata)

unfoldable pub selector_experiments : Registry → RegistryRecord → RlabResult (List Text)
unfolding selected
selector_experiments g study = selected g (Assoc.get (txt "experiment_selector") study.metadata)

-- `names.retain(|name| seen.insert(name.clone()))`
unfoldable pub retain_unseen : List Text → List Text → List Text
retain_unseen seen [] = []
retain_unseen seen (name ∷ names) = elim (any (λ n. text_eq n name) seen) [
  | true ↦ retain_unseen seen names
  | false ↦ name ∷ retain_unseen (name ∷ seen) names
]

string_array : RegistryRecord → RlabResult (List Text)
unfolding string_array_value
string_array study =
    string_array_value (Assoc.get (txt "experiments") study.metadata) (txt "study experiments")

unfoldable pub study_experiments : Registry → RegistryRecord → RlabResult (List Text)
unfolding string_array selector_experiments retain_unseen
study_experiments g study = do
  listed ← string_array study
  selected' ← selector_experiments g study
  ok (retain_unseen [] (listed ++ selected'))

abbrev pub condition_case : ConditionDesign → ExperimentCase
condition_case c = record { condition = some c.name; experiment = c.experiment; params = c.params }

abbrev pub experiment_case : Text → ExperimentCase
experiment_case name = record { condition = none; experiment = name; params = [] }

is_empty : List Text → Bool
is_empty [] = true
is_empty (t ∷ ts) = false

-- The cases by the conditions of the design.
unfoldable pub cases_of :
    Registry → RegistryRecord → List ConditionDesign → RlabResult (List ExperimentCase)
unfolding study_experiments string_array is_empty
cases_of g study [] = do names ← study_experiments g study; ok (map experiment_case names)
cases_of g study (c ∷ cs) = do
  listed ← string_array study
  ensure (is_empty listed && not (Assoc.contains_key (txt "experiment_selector") study.metadata)) (
      validation
        (format "study conditions cannot be mixed with experiments or experiment_selector" []))
  ok (map condition_case (c ∷ cs))

unfoldable pub study_experiment_cases :
    Registry → RegistryRecord → StudyDesign → RlabResult (List ExperimentCase)
unfolding cases_of
study_experiment_cases g study design = cases_of g study design.conditions

-- What the loop over the cases decodes for an experiment's name.
unfoldable pub experiment_designs : Registry → Text → Option (RlabResult ExperimentDesign)
unfolding experiment_lookup parse_experiment_design
experiment_designs g name = elim (Assoc.get name (experiment_lookup g)) [
  | none ↦ none
  | some r ↦ some (parse_experiment_design r)
]

unfoldable pub plan_registry_study :
    Registry → Text → StudyMode → Assoc Value → Assoc Value → RlabResult RegistryStudyPlan
unfolding find_ref parse_qualification parse_study_design study_experiment_cases experiment_designs
    plan_study
plan_registry_study g study_name mode default_params explicit_params = do
  study ←
      ok_or (find_ref g (txt "study") study_name)
        (validation (format "unknown study: {}" (study_name ∷ [])))
  qualified ← parse_qualification study
  design ← parse_study_design study
  cases ← study_experiment_cases g study design
  plan_study (experiment_designs g) study_name design mode qualified default_params explicit_params
      cases
