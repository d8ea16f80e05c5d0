-- ===== src/Storage/Tests.antt =====
-- Runs at concrete inputs.
use research_lab.Prelude.{
  ◌≡◌, ◌↔◌, ◌*◌, refl, ap, arith, ℕ, true, false, none, some, List, [], ◌∷◌, ◌++◌, length, map, All,
  Member, inl,
}
use research_lab.Prelude.Text.{Text, txt, text_eq, text_cmp, is_blank, is_whitespace}
use research_lab.Prelude.Outcome.{ok}
use research_lab.Prelude.Assoc
use research_lab.Json
use research_lab.Json.{Value, object, string, end, field, get_field}
use research_lab.Storage.Glob.{glob_match}
use research_lab.Storage.Glob.Cells.{Matches}
use research_lab.Storage.Glob.Meaning.{glob_match_iff}
use research_lab.Storage.Retention.{
  FileSystem, FileEntry, OutputDir, Outputs, OutputRetention, RetentionReport, keep_last,
  apply_output_retention, find_resume_state_dirs, is_resume, resume_dir, is_resume_only,
  file_name_matches_any, resolve_resume_dir, read_resume_pointer,
}
use research_lab.Storage.Retention.Kept.{Pointwise, Spared, stripped, apply_output_retention-Spared}
use research_lab.Storage.Retention.Resumable.{apply_output_retention-resumable}
use research_lab.Storage.Collect.{
  RunEntry, Dated, GcSummary, prune_runs_keep_per_experiment, prune_groups, group_runs, is_prunable,
  run_has_promoted_artifact, read_run_identity, push_run, remove_runs, sort_newest_first,
  insert_dated, count_tree,
}
use research_lab.Storage.Collect.Newest.{NotBelow}
use research_lab.Storage.Collect.Pruned.{runs_named, prune_runs-newest}
use research_lab.Storage.Cache.{
  CacheEntry, Inspected, collect, enforce_materialized_cap, sort_oldest_first, evict, insert_older,
}
use research_lab.Storage.Cache.Evicted.{IsAscending, Trimmed, enforce_materialized_cap-Trimmed}
use mathlib.Core.List.{Perm}

glob_match_iff_example :
    (glob_match (txt "*.opt?m") (txt "adam.optim") ≡ true)
    ↔ Matches (txt "*.opt?m") (txt "adam.optim")
glob_match_iff_example = glob_match_iff (txt "*.opt?m") (txt "adam.optim")

matches_optim : glob_match (txt "*.opt?m") (txt "adam.optim") ≡ true
unfolding glob_match
matches_optim = refl

abbrev file : Text → FileEntry
file name = record { name = some name; is_file = true; size = 10 }

abbrev checkpoint : Text → ℕ → OutputDir
checkpoint path time = record {
  path = path;
  is_dir = true;
  modified = some time;
  entries = file (txt "model.bin") ∷ file (txt "a.optim") ∷ [];
}

abbrev outputs : Outputs
outputs = record {
  path = txt "outputs";
  is_dir = true;
  dirs = checkpoint (txt "outputs/b") 1 ∷ checkpoint (txt "outputs/a") 2 ∷ [];
}

abbrev sound_system : FileSystem
sound_system = record { list_failure = λ p. none; remove_failure = λ p e. none; parsed = λ p. none }

abbrev policy : OutputRetention
policy = record {
  keep_resume_state = keep_last;
  resume_only_globs = txt "*.optim" ∷ [];
  resume_pointer = txt "latest.json";
}

abbrev state_dirs : List OutputDir
state_dirs = checkpoint (txt "outputs/a") 2 ∷ checkpoint (txt "outputs/b") 1 ∷ []

finds_dirs : find_resume_state_dirs sound_system outputs policy.resume_only_globs ≡ ok state_dirs
unfolding apply_output_retention is_resume_only file_name_matches_any glob_match text_cmp
finds_dirs = refl

abbrev report : RetentionReport
report = record { changed = txt "outputs/b" ∷ []; removed_files = 1; removed_bytes = 10 }

strips : (apply_output_retention sound_system outputs policy false).0 ≡ ok report
unfolding apply_output_retention is_resume_only file_name_matches_any glob_match text_cmp text_eq
    resolve_resume_dir read_resume_pointer is_blank is_whitespace
strips = refl

apply_output_retention-Spared_example :
    Pointwise
      (Spared policy.resume_only_globs false (resume_dir sound_system policy state_dirs))
      state_dirs
      (apply_output_retention sound_system outputs policy false).1
unfolding apply_output_retention
apply_output_retention-Spared_example =
    apply_output_retention-Spared sound_system outputs policy false state_dirs finds_dirs refl

apply_output_retention-resumable_example :
    (x : OutputDir) × Member x state_dirs
    × (is_resume (some x.path) x ≡ true)
    × ((apply_output_retention sound_system outputs policy false).1
        ≡ map (stripped policy.resume_only_globs (some x.path)) state_dirs)
unfolding apply_output_retention
apply_output_retention-resumable_example =
    apply_output_retention-resumable sound_system outputs policy (checkpoint (txt "outputs/a") 2)
      (checkpoint (txt "outputs/b") 1 ∷ []) report refl refl refl finds_dirs strips

abbrev run_at : Text → Text → RunEntry
run_at path time = record {
  path = path;
  is_dir = true;
  run_lock = false;
  artifacts =
      some (
        object (
          field (txt "artifact_kind") (string (txt "model"))
            (field (txt "object_path") (string (txt "blobs/ab")) end)))
      ∷ [];
  manifest = some (
      object
        (field (txt "created_at") (string time) (field (txt "name") (string (txt "sweep")) end)));
  tree = ok (record { files = 1; dirs = 0; bytes = 5 });
}

abbrev runs : List RunEntry
runs = run_at (txt "r1") (txt "2024") ∷ run_at (txt "r2") (txt "2025") ∷ []

prunes : (prune_runs_keep_per_experiment (λ p. none) (some (ok runs)) 1 false).1 ≡ txt "r1" ∷ []
unfolding prune_runs_keep_per_experiment prune_groups group_runs is_prunable
    run_has_promoted_artifact read_run_identity push_run remove_runs sort_newest_first insert_dated
    count_tree Json.get get_field text_cmp Assoc.get Assoc.insert
prunes = refl

pruned : Member (txt "r1") (prune_runs_keep_per_experiment (λ p. none) (some (ok runs)) 1 false).1
pruned = rw prunes (inl refl)

prune_runs-newest_example :
    (false ≡ false)
    × (name : Text) × (newest : List Dated) × (rest : List Dated) × Perm
        (newest ++ rest)
        (runs_named name runs)
    × (length newest ≡ 1)
    × All (λ x. All (NotBelow x) rest) newest
    × ((d : Dated) × Member d rest × (txt "r1" ≡ d.1.path))
prune_runs-newest_example = prune_runs-newest (λ p. none) runs 1 false (txt "r1") pruned

abbrev cached : Text → ℕ → ℕ → CacheEntry
cached path time size = record {
  path = path;
  modified = some time;
  tree = ok (record { files = 1; dirs = 0; bytes = size });
}

abbrev inspected : Text → ℕ → ℕ → Inspected
inspected path time size = record {
  path = path;
  modified = time;
  tree = record { files = 1; dirs = 0; bytes = size };
}

abbrev cache : List CacheEntry
cache = cached (txt "new") 2 600000000 ∷ cached (txt "old") 1 600000000 ∷ []

abbrev inspected_cache : List Inspected
inspected_cache = inspected (txt "new") 2 600000000 ∷ inspected (txt "old") 1 600000000 ∷ []

collects : collect 0 cache ≡ ok (inspected_cache, 1200000000)
unfolding collect
collects = refl

abbrev evicted_summary : GcSummary
evicted_summary = record {
  schema_version = 1;
  dry_run = false;
  removed_files = 1;
  removed_dirs = 1;
  removed_bytes = 600000000;
}

evicts_old :
    enforce_materialized_cap (λ p. none) (some (ok cache)) 1 false
    ≡ (ok evicted_summary, txt "old" ∷ [])
unfolding enforce_materialized_cap collect evict sort_oldest_first insert_older count_tree
evicts_old = refl

enforce_materialized_cap-Trimmed_example :
    IsAscending (sort_oldest_first inspected_cache)
    × Trimmed
        (1 * 1024 * 1024 * 1024)
        (sort_oldest_first inspected_cache)
        (enforce_materialized_cap (λ p. none) (some (ok cache)) 1 false).1
enforce_materialized_cap-Trimmed_example =
    enforce_materialized_cap-Trimmed (λ p. none) cache 1 inspected_cache 1200000000 evicted_summary
      (omega arith) collects (ap (λ r. r.0) evicts_old)
