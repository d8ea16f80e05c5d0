-- ===== src/Run/Files.antt =====
-- What a session of crates/rlab-core/src/run/lifecycle.rs works on: the files of its run directory,
-- the manifest of run/directory.rs, and actions over them. Every
-- file operation may fail, as an environment decides; a write that fails leaves its target as it
-- was. The environment also answers each reading of the clock, and stands for the parts that the
-- session calls: the artifact store, the capture of reproducibility data, the storage policy. The
-- policy strips outputs, rewrites the list of artifacts and prunes run directories, so that it may
-- change or remove any file of the run.
use research_lab.Prelude.{ℕ, suc, Bool, false, Option, List}
use research_lab.Prelude.Text.{Text}
use research_lab.Prelude.Outcome.{RlabError, RlabResult, ok}
use research_lab.Prelude.Assoc.{Assoc}
use research_lab.Prelude.Effect
use research_lab.Prelude.Effect.{perform}
use research_lab.Json.{Value}
use research_lab.Run.State.{RunStatus}
use research_lab.Run.Metric.{MetricLine}

pub record RunDirectory : Type 0 where
  pub schema_version : ℕ
  pub id : Text
  pub operation : Text
  pub name : Text
  pub status : RunStatus
  pub path : Text
  pub created_at : ℕ
  pub updated_at : ℕ
  pub command : List Text
  pub parameters : Value
  pub notes : Option Text
  pub parent_run_id : Option Text
  pub parent_target : Option Text

-- The fields that `write_report` prints.
pub record Report : Type 0 where
  pub id : Text
  pub operation : Text
  pub name : Text
  pub status : Text

-- The files of a run directory; `none` is a file that is not there.
pub record RunFiles : Type 0 where
  pub directories : List Text
  pub locked : Bool
  pub manifest : Option RunDirectory
  pub manifest_yaml : Option RunDirectory
  pub status : Option Text
  pub params : Option Value
  pub metrics : Option (List MetricLine)
  pub summary : Option (Assoc ℕ)
  pub results : Option Value
  pub error : Option Text
  pub report : Option Report
  pub events : List (Text × ℕ)
  pub notes : List (Text × ℕ)
  pub artifacts : List Value
  pub reproducibility : Bool

pub record Environment : Type 0 where
  -- How the n-th file operation fails, if it does.
  pub failure : ℕ → Option RlabError
  pub clock : ℕ → ℕ
  -- `stage_artifact_into`
  pub stage : Value → RlabResult Value
  -- `run_finalize_storage`: how it ends, and what it leaves of the files of the run.
  pub finalize : RunFiles → RlabResult (Unit {0}) × RunFiles

abbrev pub World : Type 0
World = Effect.World RunFiles

abbrev pub Exec : Type 0 → Type 0
Exec A = Effect.Exec RunFiles A

-- One file operation: it fails as the environment says, and otherwise changes the files.
unfoldable pub effect : Environment → (RunFiles → RunFiles) → Exec (Unit {0})
effect env change = perform env.failure change

-- A file operation whose failure is not looked at, `let _ = …`.
unfoldable pub attempt : Environment → (RunFiles → RunFiles) → World → World
unfolding effect perform
attempt env change w = (effect env change w).1

-- `OffsetDateTime::now_utc()`
unfoldable pub now_utc : Environment → Exec ℕ
now_utc env w = (ok (env.clock w.steps), record { files = w.files; steps = suc w.steps })

-- The drop of the session's `RunLock`, which comes last whatever the outcome.
unfoldable pub dropping_lock : {A : Type 0} → Environment → Exec A → Exec A
unfolding attempt
dropping_lock env m w = let (r, w') = m w in (r, attempt env (λ f. record f { locked = false }) w')
