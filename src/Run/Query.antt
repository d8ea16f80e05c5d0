-- ===== src/Run/Query.antt =====
-- crates/rlab-core/src/run/query.rs: the runs of a directory, listed, shown and inspected. `serde_json` is given by the parsers of a value and of a
-- manifest, and by the float that a number is.
pub mod Listed
pub mod Records
use research_lab.Prelude.{
  ℕ, Bool, true, false, ◌&&◌, ◌||◌, not, ◌==◌, Option, none, some, is_some, or_else, List, [], ◌∷◌,
  ◌++◌, map, keep_if, Ordering, if◌then◌else◌,
}
use research_lab.Prelude.Text.{Text, txt, text_cmp, text_eq, is_blank, as_bytes}
use research_lab.Prelude.Outcome.{
  RlabResult, RlabError, ok, err, io, run, serialization, format, ◌>>=◌, ◌>>◌, ensure, ok_or,
}
use research_lab.Prelude.Decimal.{padded}
use research_lab.Prelude.Sorting.{sort_by}
use research_lab.Prelude.Assoc
use research_lab.Prelude.Assoc.{Assoc}
use research_lab.Json
use research_lab.Json.{
  Number, pos_int, neg_int, Value, null, number, object, Fields, end, field, get_field,
  insert_field, as_object, as_str,
}
use research_lab.Artifact.Layout.{join}
use research_lab.Storage.Glob.{glob_match}
use research_lab.Run.State.{RunStatus}
use research_lab.Run.Files.{RunDirectory}

pub record RunSummary : Type 0 where
  pub id : Text
  pub operation : Text
  pub name : Text
  pub status : RunStatus
  pub path : Text

pub record RunDetails : Type 0 where
  pub details_run : RunDirectory
  pub metrics : Value
  pub results : Value
  pub artifacts : List Value
  pub logs : List Value
  pub error : Option Text

-- What the operations read: the text of the file at a path, if there is one, or why it cannot be
-- read, the lines of it, which paths are directories, and the names in a directory, each of which
-- may be refused.
pub record Disk : Type 0 where
  pub file : Text → Option (RlabResult Text)
  pub lines : Text → List (RlabResult Text)
  pub is_dir : Text → Bool
  pub entries : Text → Option (RlabResult (List (RlabResult Text)))

pub record Serde : Type 0 where
  pub from_str : Text → RlabResult Value
  pub run_from_str : Text → RlabResult RunDirectory
  -- The bits of the float that a number is read as, and the number of a float.
  pub as_f64 : Number → ℕ
  pub from_f64 : ℕ → Number

abbrev pub run_schema_version : ℕ
run_schema_version = 1

unfoldable pub validate_schema : RunDirectory → RlabResult (Unit {0})
validate_schema d =
    ensure (d.schema_version == run_schema_version)
      (run (format "unsupported run schema version: {}" (padded 0 d.schema_version ∷ [])))

-- `RunId::parse`
unfoldable pub parse_id : Text → RlabResult Text
parse_id value =
    if not (is_blank value) then ok value else err (run (format "run id cannot be empty" []))

abbrev pub run_summary : RunDirectory → Text → RunSummary
run_summary d path = record {
  id = d.id;
  operation = d.operation;
  name = d.name;
  status = d.status;
  path = path;
}

-- `right.id.cmp(&left.id)`
abbrev pub older : RunSummary → RunSummary → Bool
older left right = elim (text_cmp right.id left.id) [ Ordering.gt ↦ true | _ ↦ false ]

unfoldable pub sort_runs_newest_first : List RunSummary → List RunSummary
unfolding sort_by
sort_runs_newest_first runs = sort_by older runs

unfoldable pub push_run_summary_if_valid :
    RlabResult RunDirectory → Text → List RunSummary → List RunSummary
push_run_summary_if_valid (ok d) path runs = run_summary d path ∷ runs
push_run_summary_if_valid (err e) path runs = runs

module _ (disk : Disk) where
  unfoldable pub read_to_string : Text → RlabResult Text
  read_to_string path = elim (disk.file path) [
    | none ↦ err (io path (format "No such file or directory" []))
    | some r ↦ r
  ]

module _ (serde : Serde) (disk : Disk) where
  unfoldable pub read_run_file : Text → RlabResult RunDirectory
  unfolding read_to_string validate_schema
  read_run_file path = do
    content ← read_to_string disk path
    d ← serde.run_from_str content
    validate_schema d
    ok d

  unfoldable pub read_run : Text → RlabResult RunDirectory
  unfolding read_run_file join
  read_run path = read_run_file (join path (txt "run.json"))

  -- The loop over the entries of the directory.
  pub summaries_of : Text → List (RlabResult Text) → RlabResult (List RunSummary)
  unfolding join read_run push_run_summary_if_valid
  summaries_of runs_dir [] = ok []
  summaries_of runs_dir (entry ∷ entries) = do
    name ← entry
    let path : Text = join runs_dir name
    rest ← summaries_of runs_dir entries
    ok (if disk.is_dir path then push_run_summary_if_valid (read_run path) path rest else rest)

  pub list_entries :
      Text → Option (RlabResult (List (RlabResult Text))) → RlabResult (List RunSummary)
  unfolding summaries_of sort_runs_newest_first
  list_entries runs_dir none = ok []
  list_entries runs_dir (some listing) = do
    entries ← listing
    runs ← summaries_of runs_dir entries
    ok (sort_runs_newest_first runs)

  unfoldable pub list_runs : Text → RlabResult (List RunSummary)
  unfolding list_entries
  list_runs runs_dir = list_entries runs_dir (disk.entries runs_dir)

  unfoldable pub show_run : Text → Text → RlabResult RunDirectory
  unfolding parse_id read_run join
  show_run runs_dir id = do run_id ← parse_id id; read_run (join runs_dir run_id)

  unfoldable pub read_json_or_default : Text → Value → RlabResult Value
  unfolding read_to_string
  read_json_or_default path default =
      if is_some (disk.file path) then read_to_string disk path >>= serde.from_str else ok default

  lines_of : List (RlabResult Text) → RlabResult (List Value)
  lines_of [] = ok []
  lines_of (entry ∷ entries) =
      let rest = lines_of entries in
      entry >>= λ line.
      if is_blank line
      then rest
      else serde.from_str line >>= λ value. rest >>= λ values. ok (value ∷ values)

  unfoldable pub read_json_lines : Text → RlabResult (List Value)
  unfolding lines_of
  read_json_lines path = if is_some (disk.file path) then lines_of (disk.lines path) else ok []

  unfoldable pub read_optional_text : Text → RlabResult (Option Text)
  unfolding read_to_string
  read_optional_text path =
      if is_some (disk.file path)
      then (do text ← read_to_string disk path; ok (some text))
      else ok none

  unfoldable pub inspect_run : Text → Text → RlabResult RunDetails
  unfolding show_run read_json_or_default read_json_lines read_optional_text join
  inspect_run runs_dir id = do
    d ← show_run runs_dir id
    metrics ← read_json_or_default (join d.path (txt "metrics_summary.json")) (object end)
    results ← read_json_or_default (join d.path (txt "results.json")) null
    artifacts ← read_json_lines (join (join d.path (txt "artifacts")) (txt "artifacts.jsonl"))
    logs ← read_json_lines (join (join d.path (txt "logs")) (txt "events.jsonl"))
    error ← read_optional_text (join (join d.path (txt "logs")) (txt "error.txt"))
    ok (record {
      details_run = d;
      metrics = metrics;
      results = results;
      artifacts = artifacts;
      logs = logs;
      error = error;
    })
