-- ===== src/Storage/Collect.antt =====
-- crates/rlab-core/src/artifact/gc.rs: pruning of the runs of each experiment. A directory tree is
-- what `inspect_tree` counts in it, and a removal may fail. Counts of files and bytes stay below
-- 2 ^ 64.
pub mod Newest
pub mod Pruned
use research_lab.Prelude.{
  ℕ, suc, ◌+◌, ◌-◌, ◌*◌, ◌^◌, ◌%◌, Bool, true, false, not, ◌&&◌, ◌||◌, leb, ltb, ◌==◌, Option, none,
  some, List, [], ◌∷◌, ◌++◌, any, drop, length, if◌then◌else◌, is_some, Ordering,
}
use research_lab.Prelude.Text.{Text, txt, text_eq, text_cmp}
use research_lab.Prelude.Outcome.{RlabError, RlabResult, ok, err, ◌>>=◌, serialization, format}
use research_lab.Prelude.Assoc
use research_lab.Prelude.Assoc.{Assoc}
use research_lab.Json
use research_lab.Json.{Value, as_str}

pub record GcSummary : Type 0 where
  pub schema_version : ℕ
  pub dry_run : Bool
  pub removed_files : ℕ
  pub removed_dirs : ℕ
  pub removed_bytes : ℕ

abbrev pub empty_summary : Bool → GcSummary
empty_summary dry_run = record {
  schema_version = 1;
  dry_run = dry_run;
  removed_files = 0;
  removed_dirs = 0;
  removed_bytes = 0;
}

pub record Inspection : Type 0 where
  pub files : ℕ
  pub dirs : ℕ
  pub bytes : ℕ

unfoldable pub count_tree : GcSummary → Inspection → GcSummary
count_tree s i = record s {
  removed_files = s.removed_files + i.files;
  removed_dirs = s.removed_dirs + (i.dirs + 1);
  removed_bytes = s.removed_bytes + i.bytes;
}

-- A child of the runs directory: whether it holds a `run.lock`, the lines of its artifacts file
-- that are not blank (each parsed, if it parses), its manifest and its tree.
pub record RunEntry : Type 0 where
  pub path : Text
  pub is_dir : Bool
  pub run_lock : Bool
  pub artifacts : List (Option Value)
  pub manifest : Option Value
  pub tree : RlabResult Inspection

-- How removing a path fails, if it does.
abbrev pub Removal : Type 0
Removal = Text → Option RlabError

abbrev pub str_field : Text → Value → Option Text
str_field key v = elim (Json.get key v) [ none ↦ none | some x ↦ as_str x ]

pub is_promoted_line : Option Value → Bool
is_promoted_line none = false
is_promoted_line (some entry) =
    is_some (str_field (txt "artifact_kind") entry) && is_some (str_field (txt "object_path") entry)

unfoldable pub run_has_promoted_artifact : RunEntry → Bool
unfolding is_promoted_line
run_has_promoted_artifact e = any is_promoted_line e.artifacts

-- The name and the time of creation, which is empty if the manifest does not give it.
unfoldable pub read_run_identity : RunEntry → Option (Text × Text)
read_run_identity e = elim e.manifest [
  | none ↦ none
  | some value ↦ elim (str_field (txt "name") value) [
    | none ↦ none
    | some name ↦ elim (str_field (txt "created_at") value) [
      | none ↦ some (name, [])
      | some created_at ↦ some (name, created_at)
    ]
  ]
]

-- A run of a group: when it was created, and its entry.
abbrev pub Dated : Type 0
Dated = Text × RunEntry

abbrev pub Groups : Type 0
Groups = Assoc (List Dated)

abbrev pub group_of : Text → Groups → List Dated
group_of name groups = elim (Assoc.get name groups) [ none ↦ [] | some runs ↦ runs ]

-- `groups.entry(name).or_default().push(…)`
unfoldable pub push_run : Text → Dated → Groups → Groups
push_run name run groups = Assoc.insert name (group_of name groups ++ run ∷ []) groups

unfoldable pub is_prunable : RunEntry → Bool
unfolding run_has_promoted_artifact
is_prunable e = e.is_dir && (not e.run_lock && run_has_promoted_artifact e)

-- The first loop of `prune_runs_keep_per_experiment`.
unfoldable pub group_runs : Groups → List RunEntry → Groups
unfolding is_prunable push_run
group_runs groups [] = groups
group_runs groups (e ∷ es) =
    let skipped = group_runs groups es in
    if not (is_prunable e) then skipped else elim (read_run_identity e) [
      | none ↦ skipped
      | some (name, created_at) ↦ group_runs (push_run name (created_at, e) groups) es
    ]

-- `sort_by` with the order of creation reversed: stable, the most recent first.
unfoldable pub insert_dated : Dated → List Dated → List Dated
insert_dated d [] = d ∷ []
insert_dated d (x ∷ xs) =
    let rest = insert_dated d xs in
    elim (text_cmp d.0 x.0) [ Ordering.lt ↦ x ∷ rest | _ ↦ d ∷ x ∷ xs ]

unfoldable pub sort_newest_first : List Dated → List Dated
unfolding insert_dated
sort_newest_first [] = []
sort_newest_first (d ∷ ds) = insert_dated d (sort_newest_first ds)

-- The summary and the paths removed, after a removal that may fail.
abbrev pub Pruning : Type 0
Pruning = RlabResult GcSummary × List Text

-- The loop over the runs to remove.
unfoldable pub remove_runs : Removal → Bool → GcSummary → List Dated → Pruning
unfolding count_tree
remove_runs removal dry_run s [] = (ok s, [])
remove_runs removal dry_run s ((created_at, e) ∷ ds) = elim e.tree [
  | err x ↦ (err x, [])
  | ok before ↦
      let rest = remove_runs removal dry_run (count_tree s before) ds in
      if dry_run
      then rest
      else elim (removal e.path) [ some x ↦ (err x, []) | none ↦ (rest.0, e.path ∷ rest.1) ]
]

-- The loop over the groups; `runs.len() as u32` drops the higher bits.
unfoldable pub prune_groups : Removal → Bool → ℕ → GcSummary → Groups → Pruning
unfolding remove_runs sort_newest_first
prune_groups removal dry_run keep s [] = (ok s, [])
prune_groups removal dry_run keep s ((name, runs) ∷ groups) =
    let skipped = prune_groups removal dry_run keep s groups in
    if leb (length runs % 2 ^ 32) keep
    then skipped
    else let r = remove_runs removal dry_run s (drop keep (sort_newest_first runs)) in
      elim r.0 [
        | err x ↦ (err x, r.1)
        | ok s' ↦ let rest = prune_groups removal dry_run keep s' groups in (rest.0, r.1 ++ rest.1)
      ]

-- The runs directory: whether it is there, and its children.
unfoldable pub prune_runs_keep_per_experiment :
    Removal → Option (RlabResult (List RunEntry)) → ℕ → Bool → Pruning
unfolding group_runs prune_groups
prune_runs_keep_per_experiment removal none keep dry_run = (ok (empty_summary dry_run), [])
prune_runs_keep_per_experiment removal (some runs) keep dry_run =
    if keep == 0 then (ok (empty_summary dry_run), []) else elim runs [
      | err x ↦ (err x, [])
      | ok entries ↦
          prune_groups removal dry_run keep (empty_summary dry_run) (group_runs [] entries)
    ]
