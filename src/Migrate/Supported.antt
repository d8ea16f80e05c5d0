-- ===== src/Migrate/Supported.antt =====
-- When a plan can be carried out.
use research_lab.Prelude.{
  ◌≡◌, refl, sym, subst, ◌↔◌, ◌≢◌, ℕ, Bool, true, false, Option, none, some, List, [], ◌∷◌, All,
  ◌==◌, if◌then◌else◌,
}
use research_lab.Prelude.Outcome.{ok, err, validation, format}
use research_lab.Migrate.{
  MigrationAction, MigrationPlan, current_schema_version, ProjectPaths, migration_plan,
  ensure_supported, ensure_actions,
}
use research_lab.Migrate.Actions.{
  Stated, stated_files, other_version, listed, migration_plan-listed,
}

-- Each file states a version.
abbrev pub Versioned : List Stated → Type 0
Versioned files = All (λ f. f.1 ≢ none) files

ensure_actions_iff :
    (actions : List MigrationAction) → (ensure_actions actions ≡ ok tt) ↔ Versioned (listed actions)
unfolding ensure_actions
ensure_actions_iff [] = ((λ _. tt), (λ _. refl))
ensure_actions_iff (a ∷ actions) = go a.from_schema_version (ensure_actions_iff actions)
  where
    go :
        (from : Option ℕ)
        → (ensure_actions actions ≡ ok tt) ↔ Versioned (listed actions)
        → ((elim from [
          | none ↦ err (
              validation (
                format "cannot automatically migrate file without schema_version: {}"
                  (a.path ∷ [])))
          | some version ↦ ensure_actions actions
        ])
            ≡ ok tt)
          ↔ ((from ≢ none) × Versioned (listed actions))
    go none (f, g) = ((λ e. cc), (λ (h, _). absurd (h refl)))
    go (some version) (f, g) = ((λ e. ((λ s. cc), f e)), (λ (h, rest). g rest))

other_version-Versioned : (files : List Stated) → Versioned (other_version files) ↔ Versioned files
other_version-Versioned [] = ((λ h. h), (λ h. h))
other_version-Versioned ((path, none) ∷ files) =
    ((λ (h, rest). absurd (h refl)), (λ (h, rest). absurd (h refl)))
other_version-Versioned ((path, some version) ∷ files) =
    go (version == current_schema_version) (other_version-Versioned files)
  where
    go :
        (same : Bool)
        → Versioned (other_version files) ↔ Versioned files
        → Versioned
            (if same then other_version files else (path, some version) ∷ other_version files)
          ↔ (((some version) ≢ none) × Versioned files)
    go true (f, g) = ((λ h. ((λ e. cc), f h)), (λ (_, h). g h))
    go false (f, g) = ((λ (s, h). (s, f h)), (λ (s, h). (s, g h)))

-- A plan that is given can be carried out exactly when each file that was read states a version,
-- whichever version that is.
pub ensure_supported-migration_plan :
    (paths : ProjectPaths) (plan : MigrationPlan)
    → migration_plan paths ≡ ok plan
    → (ensure_supported plan ≡ ok tt) ↔ Versioned (stated_files paths)
unfolding ensure_supported
ensure_supported-migration_plan paths plan h =
    let listing = migration_plan-listed paths plan h in
    let (f, g) = ensure_actions_iff plan.actions in
    let (p, q) = other_version-Versioned (stated_files paths) in
    ((λ e. p (subst Versioned listing (f e))), (λ v. g (subst Versioned (sym listing) (q v))))
