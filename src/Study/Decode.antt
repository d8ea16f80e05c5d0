-- ===== src/Study/Decode.antt =====
-- What the metadata of a record decodes to (crates/rlab-core/src/study/registry.rs). A value is
-- decoded as `serde_json::from_value` does it for the type; the wording of serde's own errors is
-- left out of the messages.
use research_lab.Prelude.{ℕ, Option, none, some, List, [], ◌∷◌, not, any}
use research_lab.Prelude.Text.{Text, txt, text_eq, is_blank}
use research_lab.Prelude.Outcome.{
  RlabResult, ok, RlabError, validation, format, ◌>>=◌, ◌>>◌, ensure, ok_or,
}
use research_lab.Prelude.Assoc
use research_lab.Prelude.Assoc.{Assoc}
use research_lab.Json.{
  Value, array, object, Fields, nil, end, field, get_field, as_object, as_array, as_str, as_u64,
  items,
}
use research_lab.Registry.{RegistryRecord}
use research_lab.Experiments.Matrix.{Axes, validate_axes}
use research_lab.Study.{ExperimentDesign, StudyDesign, ConditionDesign, Qualification, entries_of}

abbrev pub default_qualification_seed : ℕ
default_qualification_seed = 42

unfoldable pub metadata_value : RegistryRecord → Text → Value → Value
metadata_value r key default = elim (Assoc.get key r.metadata) [ none ↦ default | some v ↦ v ]

-- `option.and_then(...)` on a field.
abbrev pub field_as {ℓ} : {A : Type ℓ} → (Value → Option A) → Option Value → Option A
field_as read none = none
field_as read (some v) = read v

-- The decodings: of a map of values, of numbers and texts in an array, and of a map of arrays.
unfoldable pub decode_params : Value → Option (Assoc Value)
unfolding entries_of
decode_params (object m) = some (entries_of m)
decode_params v = none

unfoldable pub all_some {ℓ κ} :
    {A : Type ℓ} {B : Type κ} → (A → Option B) → List A → Option (List B)
all_some read [] = some []
all_some read (v ∷ vs) =
    let rest = all_some read vs in
    elim (read v) [ none ↦ none | some x ↦ elim rest [ none ↦ none | some xs ↦ some (x ∷ xs) ] ]

unfoldable pub decode_seeds : Value → Option (List ℕ)
unfolding all_some
decode_seeds (array xs) = all_some as_u64 (items xs)
decode_seeds v = none

unfoldable pub decode_strings : Value → Option (List Text)
unfolding all_some
decode_strings (array xs) = all_some as_str (items xs)
decode_strings v = none

axes_of : Fields → Option Axes
axes_of end = some []
axes_of (field k v m) =
    let rest = axes_of m in
    elim (as_array v) [
      | none ↦ none
      | some values ↦ elim rest [ none ↦ none | some axes ↦ some ((k, values) ∷ axes) ]
    ]

unfoldable pub decode_axes : Value → Option Axes
unfolding axes_of
decode_axes (object m) = axes_of m
decode_axes v = none

unfoldable pub decode_record_metadata {ℓ} :
    {A : Type ℓ} → (Value → Option A) → RegistryRecord → Text → Value → RlabResult A
unfolding metadata_value
decode_record_metadata decode r key default =
    ok_or (decode (metadata_value r key default))
      (validation (format "invalid {} {}: {error}" (r.kind ∷ key ∷ [])))

unfoldable pub string_array_value : Option Value → Text → RlabResult (List Text)
unfolding decode_strings
string_array_value none label = ok []
string_array_value (some v) label =
    ok_or (decode_strings v) (validation (format "invalid {}: {error}" (label ∷ [])))

-- The parameters in an optional field.
unfoldable pub optional_params : Option Value → RlabError → RlabResult (Assoc Value)
unfolding decode_params
optional_params none e = ok []
optional_params (some v) e = ok_or (decode_params v) e

unfoldable pub parse_experiment_design : RegistryRecord → RlabResult ExperimentDesign
unfolding decode_record_metadata decode_params decode_axes decode_seeds
parse_experiment_design r = do
  params ← decode_record_metadata decode_params r (txt "params") (object end)
  matrix ← decode_record_metadata decode_axes r (txt "matrix") (object end)
  seeds ← decode_record_metadata decode_seeds r (txt "seeds") (array nil)
  ok (record { name = r.name; params = params; matrix = matrix; seeds = seeds })

-- One condition, after those with the names given.
unfoldable pub parse_condition : List Text → Value → RlabResult ConditionDesign
unfolding optional_params
parse_condition names value = do
  fields ← ok_or (as_object value) (validation (format "study condition must be an object" []))
  name ←
      ok_or (field_as as_str (get_field (txt "name") fields))
        (validation (format "study condition name must be a string" []))
  ensure (not (is_blank name)) (validation (format "study condition name cannot be empty" []))
  ensure (not (any (λ n. text_eq n name) names))
      (validation (format "duplicate study condition name: {}" (name ∷ [])))
  experiment ←
      ok_or (field_as as_str (get_field (txt "experiment") fields))
        (validation (format "study condition experiment must be a string" []))
  ensure (not (is_blank experiment))
      (validation (format "study condition experiment cannot be empty" []))
  params ←
      optional_params (get_field (txt "params") fields)
        (validation (format "invalid study condition {} params: {error}" (name ∷ [])))
  ok (record { name = name; experiment = experiment; params = params })

unfoldable pub conditions_from : List Text → List Value → RlabResult (List ConditionDesign)
unfolding parse_condition
conditions_from names [] = ok []
conditions_from names (value ∷ values) = do
  condition ← parse_condition names value
  conditions ← conditions_from (condition.name ∷ names) values
  ok (condition ∷ conditions)

unfoldable pub parse_conditions : RegistryRecord → RlabResult (List ConditionDesign)
unfolding metadata_value conditions_from
parse_conditions r = do
  values ←
      ok_or (as_array (metadata_value r (txt "conditions") (array nil)))
        (validation (format "study conditions must be an array" []))
  conditions_from [] values

unfoldable pub variants_of : Fields → Assoc (Assoc Value) → RlabResult (Assoc (Assoc Value))
unfolding entries_of
variants_of end variants = ok variants
variants_of (field name value m) variants = do
  ensure (not (is_blank name)) (validation (format "study variant name cannot be empty" []))
  overrides ←
      ok_or (as_object value) (validation (format "study variant {} must be an object" (name ∷ [])))
  variants_of m (Assoc.insert name (entries_of overrides) variants)

unfoldable pub parse_variants : RegistryRecord → RlabResult (Assoc (Assoc Value))
unfolding metadata_value variants_of
parse_variants r = do
  fields ←
      ok_or (as_object (metadata_value r (txt "variants") (object end)))
        (validation (format "study variants must be an object" []))
  variants_of fields []

unfoldable pub parse_study_design : RegistryRecord → RlabResult StudyDesign
unfolding decode_record_metadata decode_axes decode_params decode_seeds parse_variants
    parse_conditions validate_axes
parse_study_design r = do
  axes ← decode_record_metadata decode_axes r (txt "axes") (object end)
  validate_axes axes
  params ← decode_record_metadata decode_params r (txt "params") (object end)
  variants ← parse_variants r
  conditions ← parse_conditions r
  seeds ← decode_record_metadata decode_seeds r (txt "seeds") (array nil)
  ok (record {
    params = params;
    axes = axes;
    variants = variants;
    conditions = conditions;
    seeds = seeds;
  })

qualification_seed : Option Value → RlabResult ℕ
qualification_seed none = ok default_qualification_seed
qualification_seed (some v) =
    ok_or (as_u64 v)
      (validation (format "study qualification seed must be a non-negative integer" []))

qualification_of : Option Value → RlabResult Qualification
unfolding qualification_seed optional_params
qualification_of none = ok (record { params = []; seed = default_qualification_seed })
qualification_of (some value) = do
  fields ← ok_or (as_object value) (validation (format "study qualification must be an object" []))
  seed ← qualification_seed (get_field (txt "seed") fields)
  params ←
      optional_params (get_field (txt "params") fields)
        (validation (format "invalid study qualification params: {error}" []))
  ok (record { params = params; seed = seed })

unfoldable pub parse_qualification : RegistryRecord → RlabResult Qualification
unfolding qualification_of
parse_qualification r = qualification_of (Assoc.get (txt "qualification") r.metadata)
