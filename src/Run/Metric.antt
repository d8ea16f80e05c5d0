-- ===== src/Run/Metric.antt =====
-- `Metric` of crates/rlab-core/src/result/metric.rs, and the reading and summing up of a run's
-- metrics in run/store.rs. A float is its IEEE bit pattern; a timestamp is a number.
use research_lab.Prelude.{ℕ, not, Option, List, [], ◌∷◌, ◌==◌}
use research_lab.Prelude.Text.{Text, is_blank}
use research_lab.Prelude.Outcome.{
  RlabResult, ok, err, validation, serialization, format, ◌>>=◌, ◌>>◌, ensure,
}
use research_lab.Prelude.Float.{is_finite}
use research_lab.Prelude.Assoc
use research_lab.Prelude.Assoc.{Assoc}

pub data MetricDirection : Type 0 where
  minimize maximize neutral : MetricDirection

pub record Metric : Type 0 where
  pub schema_version : ℕ
  pub name : Text
  pub value : ℕ
  pub unit : Option Text
  pub direction : Option MetricDirection
  pub timestamp : ℕ

abbrev pub metric_schema_version : ℕ
metric_schema_version = 1

unfoldable pub validate : Metric → RlabResult (Unit {0})
validate m = do
  ensure (m.schema_version == metric_schema_version)
      (validation (format "unsupported metric schema_version" []))
  ensure (not (is_blank m.name)) (validation (format "metric name cannot be empty" []))
  ensure (is_finite m.value) (validation (format "metric {} value must be finite" (m.name ∷ [])))

-- A line of `metrics.jsonl`: what `serde_json::from_str` makes of it is not this program's.
pub data MetricLine : Type 0 where
  blank : MetricLine
  entry : Metric → MetricLine
  broken : Text → MetricLine

-- The loop of `read_metrics`.
unfoldable pub read_metrics : List MetricLine → RlabResult (List Metric)
read_metrics [] = ok []
read_metrics (blank ∷ lines) = read_metrics lines
read_metrics (entry m ∷ lines) = do rest ← read_metrics lines; ok (m ∷ rest)
read_metrics (broken reason ∷ lines) = err (serialization (format "{}" (reason ∷ [])))

-- The loop of `write_metric_summary`.
unfoldable pub summarize : Assoc ℕ → List Metric → Assoc ℕ
summarize summary [] = summary
summarize summary (m ∷ ms) = summarize (Assoc.insert m.name m.value summary) ms
