-- ===== src/Artifact/Sweep.antt =====
-- crates/rlab-core/src/artifact/gc.rs: which objects are reachable, and the removal of the others.
-- Object paths are relative to the store's root. Folders are not modelled: their removal is an
-- operation that may fail, and they are not counted. A set of paths is a list, as only membership
-- is asked.
pub mod Latest
pub mod Within
pub mod Reach
pub mod Kept
pub mod Removed
use research_lab.Prelude.{
  ℕ, ◌+◌, ◌==◌, ltb, Bool, true, false, not, ◌&&◌, ◌||◌, Option, none, some, List, [], ◌∷◌, ◌++◌,
  if◌then◌else◌, any, map, Ordering, keep_if,
}
use research_lab.Prelude.Text.{Text, txt, text_eq, starts_with}
use research_lab.Prelude.Outcome.{
  RlabResult, ok, err, RlabError, serialization, io, panic, format, ◌>>=◌,
}
use research_lab.Prelude.Assoc
use research_lab.Prelude.Assoc.{keys}
use research_lab.Prelude.Effect.{World, Exec, Failures, pure, lift, reads, perform}
use research_lab.Prelude.Effect
use research_lab.Json.{Value}
use research_lab.Storage.Collect.{GcSummary, empty_summary, str_field}
use research_lab.Run.State.{completed, as_str}
use research_lab.Artifact.Reference.{ArtifactReference}
use research_lab.Artifact.Layout.{
  ArtifactManifest, TreeEntry, TreeManifest, File, blob, tree, manifest, text, rows, Files, join,
  split_prefix, utf8_len, trim,
}
use research_lab.Artifact.Lookup.{list, compare_references, missing_file}

-- A child of the runs folder: its status text, and the lines of its artifacts file that are not
-- blank, each as it parses.
pub record SweptRun : Type 0 where
  pub is_dir : Bool
  pub run_lock : Bool
  pub status : Text
  pub artifacts : Option (RlabResult (List (RlabResult Value)))

-- `path.parent()` and `path.file_name()`
unfoldable pub rsplit_once : ℕ → Text → Option (Text × Text)
rsplit_once c [] = none
rsplit_once c (d ∷ t) = elim (rsplit_once c t) [
  | none ↦ if d == c then some ([], t) else none
  | some (a, b) ↦ some (d ∷ a, b)
]

abbrev pub parent : Text → Option Text
parent path = elim (rsplit_once b'/' path) [ none ↦ none | some (a, b) ↦ some a ]

abbrev pub file_name : Text → Text
file_name path = elim (rsplit_once b'/' path) [ none ↦ path | some (a, b) ↦ b ]

-- `parent().and_then(Path::file_name) == Some("trees")`, with the parent of the parent.
unfoldable pub objects_root : Text → Option Text
unfolding rsplit_once
objects_root path = elim (parent path) [
  | none ↦ none
  | some folder ↦ if text_eq (file_name folder) (txt "trees") then parent folder else none
]

abbrev pub byte_len : Text → ℕ
byte_len [] = 0
byte_len (c ∷ t) = utf8_len c + byte_len t

-- `if sha.len() >= 2 { reachable.insert(…) }`, where slicing inside of a character panics.
pub insert_blob : Text → Text → List Text → RlabResult (List Text)
insert_blob root sha reachable =
    if ltb (byte_len sha) 2 then ok reachable else (elim (split_prefix sha) [
      | none ↦ err (panic (format "byte index 2 is not a char boundary" []))
      | some (prefix, rest) ↦ ok (join (join (join root (txt "blobs")) prefix) sha ∷ reachable)
    ])

pub insert_entries : Text → List TreeEntry → List Text → RlabResult (List Text)
unfolding insert_blob
insert_entries root [] reachable = ok reachable
insert_entries root (e ∷ es) reachable =
    insert_blob root e.sha256 reachable >>= insert_entries root es

-- What the JSON of a tree lists; other files that parse have no entries.
pub insert_tree : Text → Text → Option File → List Text → RlabResult (List Text)
unfolding insert_entries
insert_tree path root none reachable = err (missing_file path)
insert_tree path root (some (tree t)) reachable = insert_entries root t.entries reachable
insert_tree path root (some (manifest m)) reachable = ok reachable
insert_tree path root (some other) reachable = err (serialization (format "expected value" []))

unfoldable pub insert_object_path : Files → Text → List Text → RlabResult (List Text)
unfolding insert_tree objects_root
insert_object_path files path reachable = elim (objects_root path) [
  | none ↦ ok (path ∷ reachable)
  | some root ↦ insert_tree path root (Assoc.get path files) (path ∷ reachable)
]

-- `latest.insert(key, manifest)`: the map from references to their rows, in the order of the keys.
unfoldable pub insert_latest : ArtifactManifest → List ArtifactManifest → List ArtifactManifest
insert_latest m [] = m ∷ []
insert_latest m (x ∷ xs) =
    let rest = insert_latest m xs in
    elim (compare_references m.reference x.reference) [
      | Ordering.lt ↦ m ∷ x ∷ xs
      | Ordering.eq ↦ m ∷ xs
      | Ordering.gt ↦ x ∷ rest
    ]

unfoldable pub latest_rows : List ArtifactManifest → List ArtifactManifest → List ArtifactManifest
unfolding insert_latest
latest_rows [] latest = latest
latest_rows (m ∷ ms) latest = latest_rows ms (insert_latest m latest)

pub insert_manifests : Files → List ArtifactManifest → List Text → RlabResult (List Text)
unfolding insert_object_path
insert_manifests files [] reachable = ok reachable
insert_manifests files (m ∷ ms) reachable =
    insert_object_path files m.object_path reachable >>= insert_manifests files ms

-- The lines of a run's artifacts.
pub insert_lines : Files → List (RlabResult Value) → List Text → RlabResult (List Text)
unfolding insert_object_path
insert_lines files [] reachable = ok reachable
insert_lines files (line ∷ lines) reachable = line >>= λ value.
    (elim (str_field (txt "object_path") value) [
      | none ↦ ok reachable
      | some path ↦ insert_object_path files path reachable
    ])
    >>= insert_lines files lines

pub insert_run : Files → SweptRun → List Text → RlabResult (List Text)
unfolding insert_lines
insert_run files r reachable =
    if not r.is_dir || r.run_lock
    then ok reachable
    else if not (text_eq (trim r.status) (as_str completed))
    then ok reachable
    else (elim r.artifacts [
      | none ↦ ok reachable
      | some lines ↦ lines >>= λ ls. insert_lines files ls reachable
    ])

pub insert_runs : Files → List SweptRun → List Text → RlabResult (List Text)
unfolding insert_run
insert_runs files [] reachable = ok reachable
insert_runs files (r ∷ rs) reachable = insert_run files r reachable >>= insert_runs files rs

unfoldable pub reachable_objects : List SweptRun → Files → RlabResult (List Text)
unfolding insert_manifests insert_runs latest_rows
reachable_objects runs files = list none none none files >>= λ listed.
    insert_manifests files (latest_rows listed []) [] >>= insert_runs files runs

-- Files below `objects`.
abbrev pub in_objects : Text → Bool
in_objects path = starts_with (txt "objects/") path

abbrev pub contains : List Text → Text → Bool
contains paths path = any (text_eq path) paths

-- How operations fail, and the length of a file.
pub record SweepEnvironment : Type 0 where
  pub failure : Failures
  pub len : File → ℕ

abbrev pub count_file : GcSummary → ℕ → GcSummary
count_file s bytes = record s {
  removed_files = s.removed_files + 1;
  removed_bytes = s.removed_bytes + bytes;
}

abbrev pub bytes_at : SweepEnvironment → Text → Files → ℕ
bytes_at env path files = elim (Assoc.get path files) [ none ↦ 0 | some f ↦ env.len f ]

module _ (env : SweepEnvironment) (dry_run : Bool) where
  pub remove_files : List Text → GcSummary → Exec Files GcSummary
  remove_files [] summary = pure summary
  remove_files (path ∷ paths) summary =
      Effect.◌>>=◌ (reads (λ f. ok (bytes_at env path f))) λ bytes.
        Effect.◌>>=◌ (if dry_run then pure tt else perform env.failure (Assoc.remove path))
          λ _. remove_files paths (count_file summary bytes)

  abbrev pub unreachable : List Text → Files → List Text
  unreachable reachable files =
      keep_if (λ path. in_objects path && not (contains reachable path)) (keys files)

  pub remove_unreachable_files : List Text → GcSummary → Exec Files GcSummary
  unfolding remove_files
  remove_unreachable_files reachable summary = Effect.◌>>=◌ (perform env.failure (λ f. f)) λ _.
      Effect.◌>>=◌ (reads (λ f. ok (unreachable reachable f))) λ paths.
        Effect.◌>>=◌ (remove_files paths summary)
          λ s. Effect.◌>>=◌ (perform env.failure (λ f. f)) λ _. pure s

  unfoldable pub sweep_unreachable_objects : List SweptRun → Exec Files GcSummary
  unfolding remove_unreachable_files reachable_objects
  sweep_unreachable_objects runs =
      Effect.◌>>=◌ (reads (reachable_objects runs))
        λ reachable. remove_unreachable_files reachable (empty_summary dry_run)
