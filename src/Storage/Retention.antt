-- ===== src/Storage/Retention.antt =====
-- `apply_output_retention` of crates/rlab-core/src/run/storage.rs: which files of a run's output
-- directories are removed. A directory is listed in the order in which the system gives its
-- entries; listing and removing may fail.
pub mod Kept
pub mod Resumable
use research_lab.Prelude.{
  ℕ, suc, ◌+◌, Bool, true, false, not, ◌&&◌, ◌||◌, leb, Option, none, some, List, [], ◌∷◌, ◌++◌,
  any, find, if◌then◌else◌, ◌==◌, Ordering,
}
use research_lab.Prelude.Text.{Text, txt, text_eq, text_cmp, is_blank}
use research_lab.Prelude.Outcome.{RlabError, RlabResult, ok, err, ◌>>=◌}
use research_lab.Json
use research_lab.Json.{Value, as_str}
use research_lab.Storage.Glob.{Bytes, glob_match}

-- An entry of an output directory; the name is missing if it is not Unicode.
pub record FileEntry : Type 0 where
  pub name : Option Bytes
  pub is_file : Bool
  pub size : ℕ

pub record OutputDir : Type 0 where
  pub path : Text
  pub is_dir : Bool
  pub modified : Option ℕ
  pub entries : List FileEntry

pub data ResumeStateRetention : Type 0 where
  keep_all keep_last keep_none : ResumeStateRetention

pub record OutputRetention : Type 0 where
  pub keep_resume_state : ResumeStateRetention
  pub resume_only_globs : List Bytes
  pub resume_pointer : Text

pub record RetentionReport : Type 0 where
  pub changed : List Text
  pub removed_files : ℕ
  pub removed_bytes : ℕ

abbrev pub no_report : RetentionReport
no_report = record { changed = []; removed_files = 0; removed_bytes = 0 }

-- How listing a directory and removing one of its entries fail, if they do, and what the file with
-- a name in the outputs parses to, if it does.
pub record FileSystem : Type 0 where
  pub list_failure : Text → Option RlabError
  pub remove_failure : Text → FileEntry → Option RlabError
  pub parsed : Text → Option Value

unfoldable pub file_name_matches_any : FileEntry → List Bytes → Bool
file_name_matches_any e globs = elim e.name [
  | none ↦ false
  | some name ↦ any (λ pattern. glob_match pattern name) globs
]

-- A file that the policy calls resume-only.
unfoldable pub is_resume_only : List Bytes → FileEntry → Bool
is_resume_only globs e = e.is_file && file_name_matches_any e globs

unfoldable pub read_resume_pointer : FileSystem → Text → Option Text
unfolding Json.get
read_resume_pointer system pointer =
    if is_blank pointer then none else elim (system.parsed pointer) [
      | none ↦ none
      | some value ↦ elim (Json.get (txt "checkpoint_path") value) [
        | none ↦ none
        | some target ↦ as_str target
      ]
    ]

-- `max_by_key`, which keeps the last of equal keys; a missing time is below every other.
later_or_same : Option ℕ → Option ℕ → Bool
later_or_same none new = true
later_or_same (some t) none = false
later_or_same (some t) (some u) = leb t u

newest_from : OutputDir → List OutputDir → OutputDir
unfolding later_or_same
newest_from best [] = best
newest_from best (d ∷ ds) =
    newest_from (if later_or_same best.modified d.modified then d else best) ds

newest : List OutputDir → Option Text
unfolding newest_from
newest [] = none
newest (d ∷ ds) = some (newest_from d ds).path

pub found_or_newest : List OutputDir → Option OutputDir → Option Text
unfolding newest
found_or_newest dirs none = newest dirs
found_or_newest dirs (some found) = some found.path

pub pointed_dir : List OutputDir → Option Text → Option Text
unfolding found_or_newest
pointed_dir dirs none = newest dirs
pointed_dir dirs (some target) = found_or_newest dirs (find (λ d. text_eq d.path target) dirs)

unfoldable pub resolve_resume_dir : FileSystem → Text → List OutputDir → Option Text
unfolding pointed_dir
resolve_resume_dir system pointer dirs = pointed_dir dirs (read_resume_pointer system pointer)

-- The error or the counts of what follows, with one more file counted.
count_file : ℕ → RlabResult (ℕ × ℕ) → RlabResult (ℕ × ℕ)
count_file size (err x) = err x
count_file size (ok n) = ok (suc n.0, size + n.1)

-- The loop of `strip_resume_only_files`: the files and bytes removed, and the entries left.
pub strip_entries :
    FileSystem → Text → List Bytes → Bool → List FileEntry → RlabResult (ℕ × ℕ) × List FileEntry
unfolding count_file
strip_entries system path globs dry_run [] = (ok (0, 0), [])
strip_entries system path globs dry_run (e ∷ es) =
    let rest = strip_entries system path globs dry_run es in
    if not (is_resume_only globs e)
    then (rest.0, e ∷ rest.1)
    else if dry_run
    then (count_file e.size rest.0, e ∷ rest.1)
    else elim (system.remove_failure path e) [
      | some x ↦ (err x, e ∷ es)
      | none ↦ (count_file e.size rest.0, rest.1)
    ]

pub strip_listed :
    FileSystem → List Bytes → Bool → OutputDir → Option RlabError → RlabResult (ℕ × ℕ) × OutputDir
unfolding strip_entries
strip_listed system globs dry_run d (some x) = (err x, d)
strip_listed system globs dry_run d none =
    let r = strip_entries system d.path globs dry_run d.entries in (r.0, record d { entries = r.1 })

pub strip_resume_only_files :
    FileSystem → List Bytes → Bool → OutputDir → RlabResult (ℕ × ℕ) × OutputDir
unfolding strip_listed
strip_resume_only_files system globs dry_run d =
    strip_listed system globs dry_run d (system.list_failure d.path)

pub dir_has_resume_only_file : FileSystem → List Bytes → OutputDir → RlabResult Bool
dir_has_resume_only_file system globs d = elim (system.list_failure d.path) [
  | some x ↦ err x
  | none ↦ ok (any (is_resume_only globs) d.entries)
]

-- `dirs.sort()`: all the directories stand in the outputs, so that their names decide.
insert_dir : OutputDir → List OutputDir → List OutputDir
insert_dir d [] = d ∷ []
insert_dir d (x ∷ xs) =
    let rest = insert_dir d xs in
    elim (text_cmp d.path x.path) [ Ordering.gt ↦ x ∷ rest | _ ↦ d ∷ x ∷ xs ]

sort_dirs : List OutputDir → List OutputDir
unfolding insert_dir
sort_dirs [] = []
sort_dirs (d ∷ ds) = insert_dir d (sort_dirs ds)

-- The loop of `find_resume_state_dirs`.
state_dirs : FileSystem → List Bytes → List OutputDir → RlabResult (List OutputDir)
unfolding dir_has_resume_only_file
state_dirs system globs [] = ok []
state_dirs system globs (d ∷ ds) =
    let rest = state_dirs system globs ds in
    if not d.is_dir then rest else elim (dir_has_resume_only_file system globs d) [
      | err x ↦ err x
      | ok has ↦ if has then rest >>= (λ dirs. ok (d ∷ dirs)) else rest
    ]

-- The directory of the outputs: whether it is there, and its entries.
pub record Outputs : Type 0 where
  pub path : Text
  pub is_dir : Bool
  pub dirs : List OutputDir

pub find_resume_state_dirs : FileSystem → Outputs → List Bytes → RlabResult (List OutputDir)
unfolding state_dirs sort_dirs
find_resume_state_dirs system outputs globs = elim (system.list_failure outputs.path) [
  | some x ↦ err x
  | none ↦ state_dirs system globs outputs.dirs >>= λ dirs. ok (sort_dirs dirs)
]

pub is_resume : Option Text → OutputDir → Bool
is_resume none d = false
is_resume (some path) d = text_eq path d.path

pub add_stripped : RetentionReport → Text → ℕ × ℕ → RetentionReport
add_stripped report path (files, bytes) = if files == 0 then report else record {
  changed = report.changed ++ path ∷ [];
  removed_files = report.removed_files + files;
  removed_bytes = report.removed_bytes + bytes;
}

-- The loop of `apply_output_retention`, with the directories that it leaves.
pub strip_dirs :
    FileSystem
    → List Bytes
    → Bool
    → Option Text
    → RetentionReport
    → List OutputDir
    → RlabResult RetentionReport × List OutputDir
unfolding strip_resume_only_files is_resume add_stripped
strip_dirs system globs dry_run resume report [] = (ok report, [])
strip_dirs system globs dry_run resume report (d ∷ ds) =
    let skipped = strip_dirs system globs dry_run resume report ds in
    let r = strip_resume_only_files system globs dry_run d in
    if is_resume resume d then (skipped.0, d ∷ skipped.1) else elim (r.0) [
      | err x ↦ (err x, r.1 ∷ ds)
      | ok n ↦
          let q = strip_dirs system globs dry_run resume (add_stripped report d.path n) ds in
          (q.0, r.1 ∷ q.1)
    ]

pub resume_dir : FileSystem → OutputRetention → List OutputDir → Option Text
resume_dir system policy dirs = elim policy.keep_resume_state [
  | keep_last ↦ resolve_resume_dir system policy.resume_pointer dirs
  | _ ↦ none
]

pub is_keep_all : ResumeStateRetention → Bool
is_keep_all keep_all = true
is_keep_all s = false

pub no_globs : List Bytes → Bool
no_globs [] = true
no_globs (g ∷ gs) = false

-- `apply_output_retention`, with the directories that hold resume-only files as it leaves them, in
-- the order of their paths; it touches no others.
unfoldable pub apply_output_retention :
    FileSystem → Outputs → OutputRetention → Bool → RlabResult RetentionReport × List OutputDir
unfolding find_resume_state_dirs strip_dirs resume_dir is_keep_all no_globs
apply_output_retention system outputs policy dry_run =
    if no_globs policy.resume_only_globs
      || (is_keep_all policy.keep_resume_state || not outputs.is_dir)
    then (ok no_report, [])
    else elim (find_resume_state_dirs system outputs policy.resume_only_globs) [
      | err x ↦ (err x, [])
      | ok dirs ↦
          strip_dirs system policy.resume_only_globs dry_run (resume_dir system policy dirs)
            no_report dirs
    ]
