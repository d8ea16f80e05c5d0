-- ===== src/Migrate/Actions.antt =====
-- Which files the plan of a migration lists.
use research_lab.Prelude.{
  ◌≡◌, refl, sym, ap, subst, ℕ, Bool, true, false, Option, none, some, List, [], ◌∷◌, ◌++◌, arith,
  append_assoc, append-nil, ◌==◌, ltb, if◌then◌else◌, ◌^◌,
}
use research_lab.Prelude.Text.{Text, txt}
use research_lab.Prelude.Outcome.{
  RlabResult, ok, err, RlabError, bind-eq-ok, validation, format, ◌>>=◌, ◌>>◌, ensure,
}
use research_lab.Json.{Value}
use research_lab.Migrate.{
  MigrationAction, MigrationPlan, empty, push, upgrade, current_schema_version, ProjectPaths,
  RunEntry, run_json_path, schema_version_of, inspect_version, inspect_schema_file, scan_entry,
  scan_entries, scan_runs_for_migration, scan_registry_cache_for_migration, migration_plan,
}

-- A parsed file: its path and the schema version that it states.
abbrev pub Stated : Type 0
Stated = Text × Option ℕ

abbrev pub stated : Text → Option (RlabResult Value) → List Stated
stated path none = []
stated path (some (err e)) = []
stated path (some (ok value)) = (path, schema_version_of value) ∷ []

abbrev stated_runs : List (RlabResult RunEntry) → List Stated
stated_runs [] = []
stated_runs (err e ∷ entries) = stated_runs entries
stated_runs (ok entry ∷ entries) =
    stated (run_json_path entry) entry.run_json ++ stated_runs entries

abbrev listing : Option (RlabResult (List (RlabResult RunEntry))) → List Stated
listing none = []
listing (some (err e)) = []
listing (some (ok entries)) = stated_runs entries

-- The files of a project that say their version, or should.
abbrev pub stated_files : ProjectPaths → List Stated
stated_files paths = listing paths.runs ++ stated paths.registry_cache_path paths.registry_cache

-- Those whose version is not the current one.
abbrev pub other_version : List Stated → List Stated
other_version [] = []
other_version ((path, none) ∷ files) = (path, none) ∷ other_version files
other_version ((path, some version) ∷ files) =
    let rest = other_version files in
    if version == current_schema_version then rest else (path, some version) ∷ rest

abbrev pub listed : List MigrationAction → List Stated
listed [] = []
listed (a ∷ actions) = (a.path, a.from_schema_version) ∷ listed actions

listed-++ : (xs ys : List MigrationAction) → listed (xs ++ ys) ≡ listed xs ++ listed ys
listed-++ [] ys = refl
listed-++ (a ∷ xs) ys = ap (λ z. (a.path, a.from_schema_version) ∷ z) (listed-++ xs ys)

other_version-++ :
    (xs ys : List Stated) → other_version (xs ++ ys) ≡ other_version xs ++ other_version ys
other_version-++ [] ys = refl
other_version-++ ((path, none) ∷ xs) ys = ap (λ z. (path, none) ∷ z) (other_version-++ xs ys)
other_version-++ ((path, some version) ∷ xs) ys = ground (arith, other_version-++ xs ys)

-- A step of the scan appends the files it reads that are not current.
abbrev Appends : MigrationPlan → MigrationPlan → List Stated → Type 0
Appends before after files = listed after.actions ≡ listed before.actions ++ other_version files

ok-injective : {a b : MigrationPlan} → ok a ≡ ok b → a ≡ b
ok-injective h = cc

Appends-join :
    (a b c : MigrationPlan) (xs ys : List Stated)
    → Appends a b xs
    → Appends b c ys
    → Appends a c (xs ++ ys)
Appends-join a b c xs ys h k =
    rw (k, h, other_version-++ xs ys)
      (append_assoc (listed a.actions) (other_version xs) (other_version ys))

Appends-none : (before after : MigrationPlan) → ok before ≡ ok after → Appends before after []
Appends-none before after h = rw (ok-injective h) (sym (append-nil (listed after.actions)))

Appends-push :
    (a : MigrationAction) (before after : MigrationPlan)
    → ok (push a before) ≡ ok after
    → listed after.actions ≡ listed before.actions ++ (a.path, a.from_schema_version) ∷ []
Appends-push a before after h =
    subst (λ p. listed p.actions ≡ listed before.actions ++ (a.path, a.from_schema_version) ∷ [])
      (ok-injective h) (listed-++ before.actions (a ∷ []))

inspect_version-Appends :
    (e : RlabError) (path kind : Text) (version : Option ℕ) (before after : MigrationPlan)
    → inspect_version e path kind version before ≡ ok after
    → Appends before after ((path, version) ∷ [])
unfolding inspect_version
inspect_version-Appends e path kind none before after h = Appends-push _ before after h
inspect_version-Appends e path kind (some version) before after h =
    go (version == current_schema_version) (ltb version (2 ^ 32)) h
  where
    go :
        (same small : Bool)
        → (if same
            then ok before
            else (ensure small e >> ok (push (upgrade path kind version) before)))
          ≡ ok after
        → listed after.actions
          ≡ listed before.actions ++ (if same then [] else (path, some version) ∷ [])
    go true small h = Appends-none before after h
    go false true h = Appends-push (upgrade path kind version) before after h
    go false false h = cc

inspect_schema_file-Appends :
    (path kind : Text) (content : RlabResult Value) (before after : MigrationPlan)
    → inspect_schema_file path kind content before ≡ ok after
    → Appends before after (stated path (some content))
unfolding inspect_schema_file
inspect_schema_file-Appends path kind (err e) before after h = cc
inspect_schema_file-Appends path kind (ok value) before after h =
    inspect_version-Appends _ path kind (schema_version_of value) before after h

scan_entry-Appends :
    (entry : RunEntry) (before after : MigrationPlan)
    → scan_entry entry before ≡ ok after
    → Appends before after (stated (run_json_path entry) entry.run_json)
unfolding scan_entry
scan_entry-Appends entry before after h = go entry.run_json h
  where
    go :
        (file : Option (RlabResult Value))
        → elim file [
          | none ↦ ok before
          | some content ↦ inspect_schema_file (run_json_path entry) (txt "run") content before
        ]
          ≡ ok after
        → Appends before after (stated (run_json_path entry) file)
    go none h = Appends-none before after h
    go (some content) h = inspect_schema_file-Appends _ _ content before after h

scan_entries-Appends :
    (entries : List (RlabResult RunEntry)) (before after : MigrationPlan)
    → scan_entries entries before ≡ ok after
    → Appends before after (stated_runs entries)
unfolding scan_entries
scan_entries-Appends [] before after h = Appends-none before after h
scan_entries-Appends (err e ∷ entries) before after h = cc
scan_entries-Appends (ok entry ∷ entries) before after h =
    let (middle, one, rest) = bind-eq-ok (scan_entry entry before) (scan_entries entries) h in
    Appends-join before middle after (stated (run_json_path entry) entry.run_json)
      (stated_runs entries) (scan_entry-Appends entry before middle one)
      (scan_entries-Appends entries middle after rest)

scan_runs-Appends :
    (paths : ProjectPaths) (before after : MigrationPlan)
    → scan_runs_for_migration paths before ≡ ok after
    → Appends before after (listing paths.runs)
unfolding scan_runs_for_migration
scan_runs-Appends paths before after h = go paths.runs h
  where
    go :
        (runs : Option (RlabResult (List (RlabResult RunEntry))))
        → elim runs [ none ↦ ok before | some entries ↦ entries >>= λ es. scan_entries es before ]
          ≡ ok after
        → Appends before after (listing runs)
    go none h = Appends-none before after h
    go (some (err e)) h = cc
    go (some (ok entries)) h = scan_entries-Appends entries before after h

scan_registry_cache-Appends :
    (paths : ProjectPaths) (before after : MigrationPlan)
    → scan_registry_cache_for_migration paths before ≡ ok after
    → Appends before after (stated paths.registry_cache_path paths.registry_cache)
unfolding scan_registry_cache_for_migration
scan_registry_cache-Appends paths before after h = go paths.registry_cache h
  where
    too_large : RlabError
    too_large = validation (format "registry cache schema_version is too large" [])

    go :
        (cache : Option (RlabResult Value))
        → elim cache [
          | none ↦ ok before
          | some content ↦ content >>= λ value.
              inspect_version too_large paths.registry_cache_path
                (txt "registry_cache")
                (schema_version_of value)
                before
        ]
          ≡ ok after
        → Appends before after (stated paths.registry_cache_path cache)
    go none h = Appends-none before after h
    go (some (err e)) h = cc
    go (some (ok value)) h =
        inspect_version-Appends too_large _ _ (schema_version_of value) before after h

-- A plan that is given lists, in the order of the scan, exactly the files whose version is not the
-- current one, each with the version that it states.
pub migration_plan-listed :
    (paths : ProjectPaths) (plan : MigrationPlan)
    → migration_plan paths ≡ ok plan
    → listed plan.actions ≡ other_version (stated_files paths)
unfolding migration_plan
migration_plan-listed paths plan h =
    let (middle, runs, cache) =
      bind-eq-ok (scan_runs_for_migration paths empty) (scan_registry_cache_for_migration paths)
        h in
    Appends-join empty middle plan (listing paths.runs)
      (stated paths.registry_cache_path paths.registry_cache)
      (scan_runs-Appends paths empty middle runs)
      (scan_registry_cache-Appends paths middle plan cache)
