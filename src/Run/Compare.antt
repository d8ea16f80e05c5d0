-- ===== src/Run/Compare.antt =====
-- crates/rlab-core/src/compare/runs.rs: the metrics of runs side by side.
pub mod Refused
mod Tests
use research_lab.Prelude.{
  ℕ, Bool, true, false, ◌&&◌, ◌||◌, not, ◌==◌, Option, none, some, is_some, or_else, List, [], ◌∷◌,
  ◌++◌, map, keep_if, Ordering, if◌then◌else◌,
}
use research_lab.Prelude.Text.{Text, txt, text_cmp, text_eq, is_blank, as_bytes}
use research_lab.Prelude.Outcome.{
  RlabResult, RlabError, ok, err, io, run, serialization, format, ◌>>=◌, ◌>>◌, ensure, ok_or,
}
use research_lab.Prelude.Decimal.{padded}
use research_lab.Prelude.Sorting.{sort_by}
use research_lab.Prelude.Assoc
use research_lab.Prelude.Assoc.{Assoc}
use research_lab.Json
use research_lab.Json.{
  Number, pos_int, neg_int, Value, null, number, object, Fields, end, field, get_field,
  insert_field, as_object, as_str,
}
use research_lab.Artifact.Layout.{join}
use research_lab.Storage.Glob.{glob_match}
use research_lab.Run.State.{RunStatus}
use research_lab.Run.Files.{RunDirectory}
use research_lab.Run.Query.{
  RunSummary, Disk, Serde, read_to_string, read_json_or_default, list_runs,
}

pub record CompareRow : Type 0 where
  pub run_id : Text
  pub metrics : Assoc ℕ

module _ (serde : Serde) where
  -- The metrics of a run as `compare_runs` reads its summary file.
  pub metric_floats : Fields → Assoc ℕ
  metric_floats end = []
  metric_floats (field k v m) =
      let rest = metric_floats m in
      elim v [ number n ↦ Assoc.insert k (serde.as_f64 n) rest | _ ↦ rest ]

  unfoldable pub parse_metrics_object : Value → RlabResult (Assoc ℕ)
  unfolding metric_floats
  parse_metrics_object v = do
    fields ← ok_or (as_object v) (serialization (format "metrics summary must be a JSON object" []))
    ok (metric_floats fields)

  unfoldable pub parse_metric_summary : Text → RlabResult (Assoc ℕ)
  unfolding parse_metrics_object Json.get
  parse_metric_summary content = do
    value ← serde.from_str content
    elim (Json.get (txt "metrics") value) [
      | some metrics ↦ parse_metrics_object metrics
      | none ↦ parse_metrics_object value
    ]

-- `metrics.retain(|name, _| name == metric)`
retain_metric : Text → Assoc ℕ → Assoc ℕ
retain_metric metric ms = keep_if (λ m. text_eq m.0 metric) ms

pub filtered_row : Text → Option Text → Assoc ℕ → List CompareRow
unfolding retain_metric
filtered_row id none metrics = record { run_id = id; metrics = metrics } ∷ []
filtered_row id (some metric) metrics = elim (retain_metric metric metrics) [
  | [] ↦ []
  | m ∷ ms ↦ record { run_id = id; metrics = m ∷ ms } ∷ []
]

-- The rows of one run, by its summary file.
row_of :
    Serde
    → Disk
    → Text
    → Text
    → Option Text
    → Option (RlabResult Text)
    → RlabResult (List CompareRow)
unfolding read_to_string parse_metric_summary filtered_row
row_of serde disk path id metric none = ok []
row_of serde disk path id metric (some file) = do
  content ← read_to_string disk path
  metrics ← parse_metric_summary serde content
  ok (filtered_row id metric metrics)

compare_rows : Serde → Disk → Text → Option Text → List RunSummary → RlabResult (List CompareRow)
unfolding row_of join
compare_rows serde disk runs_dir metric [] = ok []
compare_rows serde disk runs_dir metric (r ∷ runs) = do
  let path : Text = join (join runs_dir r.id) (txt "metrics_summary.json")
  row ← row_of serde disk path r.id metric (disk.file path)
  rows ← compare_rows serde disk runs_dir metric runs
  ok (row ++ rows)

unfoldable pub compare_runs : Serde → Disk → Text → Option Text → RlabResult (List CompareRow)
unfolding compare_rows list_runs
compare_runs serde disk runs_dir metric = do
  runs ← list_runs serde disk runs_dir
  compare_rows serde disk runs_dir metric runs
