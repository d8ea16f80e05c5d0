-- ===== src/Migrate/Tests.antt =====
-- A migration at a concrete project.
use research_lab.Prelude.{◌≡◌, refl, none, some, [], ◌∷◌, ℕ}
use research_lab.Prelude.Text.{txt, text_cmp}
use research_lab.Prelude.Outcome.{ok}
use research_lab.Json.{Value, number, object, end, field, Number, get, get_field}
use research_lab.Migrate.{
  ProjectPaths, MigrationPlan, empty, push, missing_schema, upgrade, inspect_version,
  migration_plan,
}
use research_lab.Migrate.Actions.{listed, other_version, stated_files, migration_plan-listed}

abbrev at_version : ℕ → Value
at_version n = object (field (txt "schema_version") (number (Number.pos_int n)) end)

-- Runs of the current version, of a later one, and without a manifest, and a registry cache that
-- states no version.
abbrev project : ProjectPaths
project = record {
  runs = some (
      ok (
        ok (record { run_path = txt "a"; run_json = some (ok (at_version 1)) })
        ∷ ok (record { run_path = txt "b"; run_json = some (ok (at_version 7)) })
        ∷ ok (record { run_path = txt "c"; run_json = none })
        ∷ []));
  registry_cache_path = txt "registry.json";
  registry_cache = some (ok (object end));
}

abbrev plan : MigrationPlan
plan =
    push (missing_schema (txt "registry.json") (txt "registry_cache"))
      (push (upgrade (txt "b/run.json") (txt "run") 7) empty)

migration_plan_test : migration_plan project ≡ ok plan
unfolding migration_plan inspect_version get get_field text_cmp
migration_plan_test = refl

migration_plan-listed_example : listed plan.actions ≡ other_version (stated_files project)
migration_plan-listed_example = migration_plan-listed project plan migration_plan_test
