-- ===== src/Run/Compare/Refused.antt =====
-- When the summary of a run's metrics can be compared (crates/rlab-core/src/compare/runs.rs).
use research_lab.Prelude.{
  ℕ, Any, false, ◌≢◌, Option, none, some, List, [], ◌∷◌, ◌≡◌, inl, inr, refl, sym, subst, ◌∙◌,
}
use research_lab.Prelude.Text.{Text, txt}
use research_lab.Prelude.Outcome.{RlabResult, ok, is_ok, bind-eq-ok, RlabResult-cases}
use research_lab.Prelude.Assoc.{Assoc}
use research_lab.Json
use research_lab.Json.{
  Number, Value, null, bool, number, string, array, object, Fields, get_field, is_object,
}
use research_lab.Artifact.Layout.{join}
use research_lab.Run.Compare.{
  CompareRow, parse_metric_summary, parse_metrics_object, row_of, compare_rows, compare_runs,
}
use research_lab.Run.Query.{Serde, Disk, RunSummary, read_to_string, list_runs}

-- The run has a summary that can be read, in which a metric is called `metrics`.
abbrev pub HasMetricMetrics : Serde → Disk → Text → RunSummary → Type 0
HasMetricMetrics serde disk runs_dir r =
    (content : Text) × (raw : Fields) × (n : Number) × (disk.file
        (join (join runs_dir r.id) (txt "metrics_summary.json"))
      ≡ some (ok content))
    × (serde.from_str content ≡ ok (object raw))
    × (get_field (txt "metrics") raw ≡ some (number n))

refused_summary :
    (serde : Serde) (content : Text) (raw : Fields) (n : Number) (m : Assoc ℕ)
    → serde.from_str content ≡ ok (object raw)
    → get_field (txt "metrics") raw ≡ some (number n)
    → parse_metric_summary serde content ≢ ok m
unfolding parse_metric_summary parse_metrics_object Json.get
refused_summary serde content raw n m read found e =
    let (value, f, e1) = bind-eq-ok (serde.from_str content) _ e in
    let same : value ≡ object raw = cc (sym f ∙ read) in
    by (get_field (txt "metrics") raw) found (
      subst
        (λ v.
          elim (Json.get (txt "metrics") v) as (λ _. RlabResult (Assoc ℕ)) [
            | some metrics ↦ parse_metrics_object serde metrics
            | none ↦ parse_metrics_object serde v
          ]
          ≡ ok m)
        same e1)
  where
    by :
        (o : Option Value)
        → o ≡ some (number n)
        → elim o as (λ _. RlabResult (Assoc ℕ)) [
          | some metrics ↦ parse_metrics_object serde metrics
          | none ↦ parse_metrics_object serde (object raw)
        ]
          ≡ ok m
        → ⊥
    by none g e = cc g
    by (some (number k)) g e = cc e
    by (some null) g e = cc e
    by (some (bool b)) g e = cc e
    by (some (string s)) g e = cc e
    by (some (array xs)) g e = cc e
    by (some (object fields)) g e = cc g

row-refused :
    (serde : Serde) (disk : Disk) (path id : Text) (metric : Option Text) (content : Text)
    (raw : Fields) (n : Number) (rows : List CompareRow)
    → disk.file path ≡ some (ok content)
    → serde.from_str content ≡ ok (object raw)
    → get_field (txt "metrics") raw ≡ some (number n)
    → row_of serde disk path id metric (disk.file path) ≢ ok rows
unfolding row_of read_to_string
row-refused serde disk path id metric content raw n rows there read found e =
    let e' = subst (λ o. row_of serde disk path id metric o ≡ ok rows) there e in
    let (text, f, e1) = bind-eq-ok (read_to_string disk path) _ e' in
    let (m, g, e2) = bind-eq-ok (parse_metric_summary serde text) _ e1 in
    let is_content : read_to_string disk path ≡ ok content = rw (read_to_string, there) refl in
    let same : text ≡ content = cc (sym f ∙ is_content) in
    refused_summary serde content raw n m read found
      (subst (λ t. parse_metric_summary serde t ≡ ok m) same g)

rows-refused :
    (serde : Serde) (disk : Disk) (runs_dir : Text) (metric : Option Text) (runs : List RunSummary)
    (rows : List CompareRow)
    → Any (HasMetricMetrics serde disk runs_dir) runs
    → compare_rows serde disk runs_dir metric runs ≢ ok rows
unfolding compare_rows
rows-refused serde disk runs_dir metric [] rows h e = h
rows-refused serde disk runs_dir metric (r ∷ runs) rows h e =
    let path = join (join runs_dir r.id) (txt "metrics_summary.json") in
    let (row, f, e1) = bind-eq-ok (row_of serde disk path r.id metric (disk.file path)) _ e in
    let (rest, g, e2) = bind-eq-ok (compare_rows serde disk runs_dir metric runs) _ e1 in
    elim h [
      | inl (content, raw, n, there, read, found) ↦
          row-refused serde disk path r.id metric content raw n row there read found f
      | inr later ↦ rows-refused serde disk runs_dir metric runs rest later g
    ]

-- One run that has logged a metric called `metrics` is enough for the comparison of all runs to be
-- refused, whichever metric is asked for.
pub compare_runs-refused :
    (serde : Serde) (disk : Disk) (runs_dir : Text) (metric : Option Text) (runs : List RunSummary)
    → list_runs serde disk runs_dir ≡ ok runs
    → Any (HasMetricMetrics serde disk runs_dir) runs
    → is_ok (compare_runs serde disk runs_dir metric) ≡ false
unfolding compare_runs
compare_runs-refused serde disk runs_dir metric runs listed h =
    elim (RlabResult-cases (compare_runs serde disk runs_dir metric)) [
      | inr (x, e) ↦ rw e refl
      | inl (rows, e) ↦
          let (rs, f, e1) = bind-eq-ok (list_runs serde disk runs_dir) _ e in
          let same : rs ≡ runs = cc (sym f ∙ listed) in
          absurd (
            rows-refused serde disk runs_dir metric runs rows h
              (subst (λ rs. compare_rows serde disk runs_dir metric rs ≡ ok rows) same e1))
    ]
