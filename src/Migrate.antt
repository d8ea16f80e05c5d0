-- ===== src/Migrate.antt =====
-- crates/rlab-core/src/migrate: the plan that brings the files of a project to the schema version
-- of the program. What the file system holds is given: a file stands for the outcome of reading
-- it and parsing its JSON, and a directory for the outcome of listing it.
pub mod Actions
pub mod Supported
mod Tests
use research_lab.Prelude.{
  ℕ, Bool, true, false, Option, none, some, List, [], ◌∷◌, ◌++◌, ◌==◌, ltb, if◌then◌else◌, ◌^◌,
}
use research_lab.Prelude.Text.{Text, txt}
use research_lab.Prelude.Outcome.{
  Message, format, RlabResult, ok, err, RlabError, validation, ◌>>=◌, ◌>>◌, ensure,
}
use research_lab.Prelude.Decimal.{decimal}
use research_lab.Json.{Value, get, as_u64}

abbrev pub current_schema_version : ℕ
current_schema_version = 1

pub record MigrationAction : Type 0 where
  path : Text
  action : Text
  from_schema_version : Option ℕ
  to_schema_version : ℕ
  reason : Message

pub record MigrationPlan : Type 0 where
  schema_version : ℕ
  current_schema_version : ℕ
  actions : List MigrationAction

abbrev pub empty : MigrationPlan
empty = record {
  schema_version = current_schema_version;
  current_schema_version = current_schema_version;
  actions = [];
}

-- `self.actions.push(action)`
abbrev pub push : MigrationAction → MigrationPlan → MigrationPlan
push a plan = record {
  schema_version = plan.schema_version;
  current_schema_version = plan.current_schema_version;
  actions = plan.actions ++ a ∷ [];
}

abbrev pub missing_schema : Text → Text → MigrationAction
missing_schema path kind = record {
  path = path;
  action = txt "add_schema_version";
  from_schema_version = none;
  to_schema_version = current_schema_version;
  reason = format "{} file is missing schema_version" (kind ∷ []);
}

abbrev pub upgrade : Text → Text → ℕ → MigrationAction
upgrade path kind from = record {
  path = path;
  action = txt "upgrade_schema";
  from_schema_version = some from;
  to_schema_version = current_schema_version;
  reason =
      format "{} file schema_version {} is older than {}"
        (kind ∷ decimal from ∷ decimal current_schema_version ∷ []);
}

-- `value.get("schema_version").and_then(Value::as_u64)`
abbrev pub schema_version_of : Value → Option ℕ
schema_version_of value = elim (get (txt "schema_version") value) [
  | none ↦ none
  | some v ↦ as_u64 v
]

-- The three branches for a parsed file; a version that is no u32 is refused.
pub inspect_version : RlabError → Text → Text → Option ℕ → MigrationPlan → RlabResult MigrationPlan
inspect_version too_large path kind none plan = ok (push (missing_schema path kind) plan)
inspect_version too_large path kind (some version) plan =
    if version == current_schema_version
    then ok plan
    else (ensure (ltb version (2 ^ 32)) too_large >> ok (push (upgrade path kind version) plan))

pub inspect_schema_file : Text → Text → RlabResult Value → MigrationPlan → RlabResult MigrationPlan
unfolding inspect_version
inspect_schema_file path kind content plan = content >>= λ value.
    inspect_version (validation (format "schema_version is too large in {}" (path ∷ []))) path kind
      (schema_version_of value) plan

-- An entry of the directory of runs, and its `run.json`, if there is one.
pub record RunEntry : Type 0 where
  run_path : Text
  run_json : Option (RlabResult Value)

abbrev pub run_json_path : RunEntry → Text
run_json_path entry = entry.run_path ++ txt "/run.json"

pub scan_entry : RunEntry → MigrationPlan → RlabResult MigrationPlan
unfolding inspect_schema_file
scan_entry entry plan = elim entry.run_json [
  | none ↦ ok plan
  | some content ↦ inspect_schema_file (run_json_path entry) (txt "run") content plan
]

pub scan_entries : List (RlabResult RunEntry) → MigrationPlan → RlabResult MigrationPlan
unfolding scan_entry
scan_entries [] plan = ok plan
scan_entries (entry ∷ entries) plan = entry >>= λ e. scan_entry e plan >>= scan_entries entries

-- What the scans read: nothing where the path does not exist.
pub record ProjectPaths : Type 0 where
  runs : Option (RlabResult (List (RlabResult RunEntry)))
  registry_cache_path : Text
  registry_cache : Option (RlabResult Value)

pub scan_runs_for_migration : ProjectPaths → MigrationPlan → RlabResult MigrationPlan
unfolding scan_entries
scan_runs_for_migration paths plan = elim paths.runs [
  | none ↦ ok plan
  | some entries ↦ entries >>= λ es. scan_entries es plan
]

pub scan_registry_cache_for_migration : ProjectPaths → MigrationPlan → RlabResult MigrationPlan
unfolding inspect_version
scan_registry_cache_for_migration paths plan = elim paths.registry_cache [
  | none ↦ ok plan
  | some content ↦ content >>= λ value.
      inspect_version (validation (format "registry cache schema_version is too large" []))
        paths.registry_cache_path (txt "registry_cache") (schema_version_of value) plan
]

pub migration_plan : ProjectPaths → RlabResult MigrationPlan
unfolding scan_runs_for_migration scan_registry_cache_for_migration
migration_plan paths =
    scan_runs_for_migration paths empty >>= scan_registry_cache_for_migration paths

pub ensure_actions : List MigrationAction → RlabResult (Unit {0})
ensure_actions [] = ok tt
ensure_actions (a ∷ actions) = elim a.from_schema_version [
  | none ↦ err (
      validation
        (format "cannot automatically migrate file without schema_version: {}" (a.path ∷ [])))
  | some version ↦ ensure_actions actions
]

pub ensure_supported : MigrationPlan → RlabResult (Unit {0})
unfolding ensure_actions
ensure_supported plan = ensure_actions plan.actions
