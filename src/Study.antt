-- ===== src/Study.antt =====
-- crates/rlab-core/src/study/registry.rs: the jobs of a study, from its design and the designs of its
-- experiments, which are what the records' metadata decode to. A job refused anywhere refuses
-- the whole plan. The count of jobs is below 2 ^ 64.
pub mod Overrides
pub mod Collisions
pub mod Jobs
pub mod Decode
pub mod Cases
mod Tests
use research_lab.Prelude.{
  ℕ, suc, ◌+◌, ◌*◌, Bool, true, false, not, ◌&&◌, ◌||◌, ltb, Option, none, some, List, [], ◌∷◌,
  ◌++◌, map, length, any, if◌then◌else◌, keep_if,
}
use research_lab.Prelude.Text.{Text, txt, text_eq, has_char}
use research_lab.Prelude.Decimal.{padded}
use research_lab.Prelude.Outcome.{
  RlabResult, ok, err, RlabError, validation, serialization, format, ◌>>=◌, ◌>>◌, ensure, ok_or,
}
use research_lab.Prelude.Assoc
use research_lab.Prelude.Assoc.{Assoc}
use research_lab.Json.{Value, object, Fields, end, field, insert_field}
use research_lab.Documents.{apply_dotted_overrides}
use research_lab.Experiments.Matrix.{Axes, Row, expand_valid_axes, usize_limit}
use research_lab.Experiments.Planner.{ExperimentJob}

abbrev pub study_schema_version : ℕ
study_schema_version = 1

pub data StudyMode : Type 0 where
  qualification full : StudyMode

pub record ExperimentDesign : Type 0 where
  pub name : Text
  pub params : Assoc Value
  pub matrix : Axes
  pub seeds : List ℕ

pub record ConditionDesign : Type 0 where
  pub name : Text
  pub experiment : Text
  pub params : Assoc Value

pub record StudyDesign : Type 0 where
  pub params : Assoc Value
  pub axes : Axes
  pub variants : Assoc (Assoc Value)
  pub conditions : List ConditionDesign
  pub seeds : List ℕ

pub record ExperimentCase : Type 0 where
  pub condition : Option Text
  pub experiment : Text
  pub params : Assoc Value

pub record Qualification : Type 0 where
  pub params : Assoc Value
  pub seed : ℕ

pub record RegistryStudyPlan : Type 0 where
  pub schema_version : ℕ
  pub study : Text
  pub mode : StudyMode
  pub jobs : List ExperimentJob

extend_fields : Fields → Assoc Value → Fields
extend_fields m [] = m
extend_fields m ((k, v) ∷ over) = extend_fields (insert_field k v m) over

unfoldable pub extend_params_object : Value → Assoc Value → Value
unfolding extend_fields
extend_params_object (object m) over = object (extend_fields m over)
extend_params_object v over = v

-- The loop of `apply_declared_overrides_value`, with the flat overrides so far.
apply_declared : Value → Assoc Value → Assoc Value → RlabResult Value
unfolding extend_params_object
apply_declared params flat [] = ok (extend_params_object params flat)
apply_declared params flat ((key, value) ∷ over) =
    if has_char b'.' key
    then (do
      params' ← apply_dotted_overrides params ((key, value) ∷ []) false
      apply_declared params' flat over)
    else apply_declared params (Assoc.insert key value flat) over

unfoldable pub apply_declared_overrides_value : Value → Assoc Value → RlabResult Value
unfolding apply_declared
apply_declared_overrides_value params over = apply_declared params [] over

insert_param : Text → Value → Value → Value
insert_param key value (object m) = object (insert_field key value m)
insert_param key value params = params

-- One override: its dotted path if that leads through mappings, and else the key as it stands.
unfoldable pub apply_runtime_override : Text → Value → Value → Value
unfolding insert_param
apply_runtime_override key value params =
    if has_char b'.' key
    then elim (apply_dotted_overrides params ((key, value) ∷ []) false) [
      | ok patched ↦ patched
      | err x ↦ insert_param key value params
    ]
    else insert_param key value params

unfoldable pub apply_runtime_overrides_value : Value → Assoc Value → Value
unfolding apply_runtime_override
apply_runtime_overrides_value params [] = params
apply_runtime_overrides_value params ((key, value) ∷ over) =
    apply_runtime_overrides_value (apply_runtime_override key value params) over

entries_of : Fields → Assoc Value
entries_of end = []
entries_of (field k v m) = (k, v) ∷ entries_of m

unfoldable pub value_to_params : Value → RlabResult (Assoc Value)
unfolding entries_of
value_to_params (object m) = ok (entries_of m)
value_to_params v = err (serialization (format "invalid type, expected a map" []))

unfoldable pub base_params_value :
    Assoc Value → Assoc Value → Assoc Value → Assoc Value → RlabResult Value
unfolding extend_params_object apply_declared_overrides_value
base_params_value default_params experiment_params study_params condition_params =
    apply_declared_overrides_value
      (extend_params_object
        (extend_params_object (extend_params_object (object end) default_params) experiment_params)
        study_params)
      condition_params

unfoldable pub effective_full_seeds : List ℕ → List ℕ → List (Option ℕ)
effective_full_seeds [] [] = none ∷ []
effective_full_seeds [] (seed ∷ seeds) = map some (seed ∷ seeds)
effective_full_seeds (seed ∷ seeds) experiment_seeds = map some (seed ∷ seeds)

named_variants : Assoc (Assoc Value) → List (Option Text × Assoc Value)
named_variants [] = []
named_variants ((name, over) ∷ variants) = (some name, over) ∷ named_variants variants

unfoldable pub variant_rows : Assoc (Assoc Value) → List (Option Text × Assoc Value)
unfolding named_variants
variant_rows [] = (none, []) ∷ []
variant_rows (v ∷ variants) = named_variants (v ∷ variants)

checked_mul : ℕ → ℕ → RlabResult ℕ
checked_mul a b =
    if ltb (a * b) usize_limit
    then ok (a * b)
    else err (validation (format "study plan is too large" []))

abbrev pub seed_count : StudyMode → ℕ → ℕ
seed_count qualification full_seeds = 1
seed_count full full_seeds = full_seeds

unfoldable pub planned_job_count : ℕ → ℕ → ℕ → ℕ → StudyMode → RlabResult ℕ
unfolding checked_mul
planned_job_count experiment_rows study_rows variants full_seeds mode = do
  a ← checked_mul experiment_rows study_rows
  b ← checked_mul a variants
  checked_mul b (seed_count mode full_seeds)

variant_keys : Assoc (Assoc Value) → List Text
variant_keys [] = []
variant_keys ((name, over) ∷ variants) = Assoc.keys over ++ variant_keys variants

-- The keys of the qualification that planning also sets.
unfoldable pub collisions : Axes → Axes → Assoc (Assoc Value) → Assoc Value → List Text
unfolding variant_keys
collisions matrix axes variants params =
    keep_if
      (λ key.
        Assoc.contains_key key matrix
        || (Assoc.contains_key key axes || any (text_eq key) (variant_keys variants)))
      (Assoc.keys params)

refuse : Text → List Text → RlabResult (Unit {0})
refuse name [] = ok tt
refuse name (key ∷ keys) =
    err (
      validation
        (format "qualification params overlap planned axes for {}: {}" (name ∷ key ∷ keys)))

unfoldable pub reject_qualification_collisions :
    Text → Axes → Axes → Assoc (Assoc Value) → Assoc Value → RlabResult (Unit {0})
unfolding collisions refuse
reject_qualification_collisions name matrix axes variants params =
    refuse name (collisions matrix axes variants params)
