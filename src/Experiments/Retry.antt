-- ===== src/Experiments/Retry.antt =====
-- crates/rlab-core/src/experiments/retry.rs
use research_lab.Prelude.{ℕ, not, ◌&&◌, ◌==◌, List, []}
use research_lab.Prelude.Outcome.{RlabResult, validation, format, ◌>>◌, ensure}
use research_lab.Prelude.Float.{is_finite, float_le}

pub data FailureKind : Type 0 where
  timeout resource_error python_exception external_command : FailureKind

-- The delay is the bit pattern of a float.
pub record RetryPolicy : Type 0 where
  pub schema_version : ℕ
  pub max_attempts : ℕ
  pub on : List FailureKind
  pub delay_seconds : ℕ

abbrev pub retry_schema_version : ℕ
retry_schema_version = 1

-- `RetryPolicy::none`
abbrev pub no_retry : RetryPolicy
no_retry = record {
  schema_version = retry_schema_version;
  max_attempts = 1;
  on = [];
  delay_seconds = 0;
}

unfoldable pub validate_retry : RetryPolicy → RlabResult (Unit {0})
validate_retry p = do
  ensure (p.schema_version == retry_schema_version)
      (validation (format "unsupported retry policy schema_version" []))
  ensure (not (p.max_attempts == 0))
      (validation (format "retry max_attempts must be at least 1" []))
  ensure (is_finite p.delay_seconds && float_le 0 p.delay_seconds)
      (validation (format "retry delay_seconds must be finite and non-negative" []))
