-- ===== src/Jobs.antt =====
-- crates/rlab-core/src/jobs/store.rs: shell commands that are run to their end and recorded. The
-- files are the rows of `jobs.jsonl` and the logs by their paths; each operation on them may fail,
-- a row being appended whole or not at all. What the shell does is the environment's, as is the clock.
pub mod Cancelled
mod Tests
use research_lab.Prelude.{
  ℕ, Bool, true, false, not, Option, none, some, List, [], ◌∷◌, ◌++◌, find, reverse, if◌then◌else◌,
}
use research_lab.Prelude.Text.{Text, txt, text_eq, is_blank}
use research_lab.Prelude.Decimal.{padded}
use research_lab.Prelude.Outcome.{
  RlabResult, ok, err, RlabError, io, validation, not_found, format, ensure, ok_or,
}
use research_lab.Prelude.Effect
use research_lab.Prelude.Effect.{Failures, lift, reads, pure, ◌>>=◌, ◌>>◌, perform, ask}
use research_lab.Prelude.Assoc
use research_lab.Prelude.Assoc.{Assoc}
use research_lab.Artifact.Layout.{join}

abbrev pub job_schema_version : ℕ
job_schema_version = 1

pub data JobStatus : Type 0 where
  running completed failed cancelled : JobStatus

unfoldable pub as_str : JobStatus → Text
as_str running = txt "running"
as_str completed = txt "completed"
as_str failed = txt "failed"
as_str cancelled = txt "cancelled"

unfoldable pub parse : Text → RlabResult JobStatus
parse value =
    if text_eq value (txt "running")
    then ok running
    else if text_eq value (txt "completed")
    then ok completed
    else if text_eq value (txt "failed")
    then ok failed
    else if text_eq value (txt "cancelled")
    then ok cancelled
    else err (validation (format "unknown job status: {}" (value ∷ [])))

pub record JobRecord : Type 0 where
  pub schema_version : ℕ
  pub id : Text
  pub command : Text
  pub status : JobStatus
  pub exit_code : Option ℕ
  pub log_path : Text
  pub created_at : ℕ
  pub completed_at : Option ℕ

pub record JobFiles : Type 0 where
  pub rows : List JobRecord
  pub logs : Assoc Text

pub record Output : Type 0 where
  pub stdout : Text
  pub stderr : Text
  pub success : Bool
  pub code : Option ℕ

pub record Environment : Type 0 where
  pub failure : Failures
  pub clock : ℕ → ℕ
  -- What the command does when it is run at this step, or why the shell cannot be started.
  pub run_shell : Text → ℕ → RlabResult Output
  pub cache : Text

abbrev pub World : Type 0
World = Effect.World JobFiles

abbrev pub Exec : Type 0 → Type 0
Exec A = Effect.Exec JobFiles A

unfoldable pub validate_command : Text → RlabResult (Unit {0})
validate_command command =
    ensure (not (is_blank command)) (validation (format "job command cannot be empty" []))

unfoldable pub validate_nonempty : Text → Text → RlabResult (Unit {0})
validate_nonempty label value =
    ensure (not (is_blank value)) (validation (format "{} cannot be empty" (label ∷ [])))

abbrev pub ended_at : JobStatus → ℕ → Option ℕ
ended_at running now = none
ended_at status now = some now

-- `append_jsonl`
unfoldable pub append_row : Environment → JobRecord → Exec (Unit {0})
append_row env r = perform env.failure (λ f. record f { rows = f.rows ++ r ∷ [] })

-- `write_text_atomic` of a log.
unfoldable pub write_log : Environment → Text → Text → Exec (Unit {0})
write_log env path text =
    perform env.failure (λ f. record f { logs = Assoc.insert path text f.logs })

-- `JobRecord::new`, which records nothing by itself.
unfoldable pub new : Environment → Text → Text → JobStatus → Text → Option ℕ → Exec JobRecord
unfolding validate_command validate_nonempty
new env id command status log_path exit_code = do
  lift (validate_nonempty (txt "job id") id)
  lift (validate_command command)
  lift (validate_nonempty (txt "job log path") log_path)
  now ← ask env.clock
  pure (record {
    schema_version = job_schema_version;
    id = id;
    command = command;
    status = status;
    exit_code = exit_code;
    log_path = log_path;
    created_at = now;
    completed_at = ended_at status now;
  })

abbrev pub outcome : Output → JobStatus
outcome output = if output.success then completed else failed

unfoldable pub start_job : Environment → Text → Exec JobRecord
unfolding validate_command write_log append_row join
start_job env command = do
  lift (validate_command command)
  nanos ← ask env.clock
  let id : Text = txt "job_" ++ padded 0 nanos
  let log_path : Text = join (join env.cache (txt "jobs")) (id ++ txt ".log")
  started_at ← ask env.clock
  result ← ask (env.run_shell command)
  output ← lift result
  write_log env log_path (output.stdout ++ output.stderr)
  now ← ask env.clock
  let job : JobRecord = record {
    schema_version = job_schema_version;
    id = id;
    command = command;
    status = outcome output;
    exit_code = output.code;
    log_path = log_path;
    created_at = started_at;
    completed_at = some now;
  }
  append_row env job
  pure job

unfoldable pub list_jobs : Environment → Exec (List JobRecord)
list_jobs env = do perform env.failure (λ f. f); reads (λ f. ok f.rows)

-- The last row of the job.
unfoldable pub latest_row : Text → List JobRecord → RlabResult JobRecord
latest_row id rows =
    ok_or (find (λ r. text_eq r.id id) (reverse rows)) (not_found (format "job {}" (id ∷ [])))

unfoldable pub job_logs : Environment → Text → Exec Text
unfolding list_jobs latest_row
job_logs env id = do
  rows ← list_jobs env
  r ← lift (latest_row id rows)
  perform env.failure (λ f. f)
  reads (λ f.
      ok_or (Assoc.get r.log_path f.logs) (io r.log_path (format "No such file or directory" [])))

abbrev pub is_running : JobStatus → Bool
is_running running = true
is_running s = false

unfoldable pub cancel_job : Environment → Text → Exec JobRecord
unfolding list_jobs latest_row append_row
cancel_job env id = do
  rows ← list_jobs env
  latest ← lift (latest_row id rows)
  lift (
      ensure (is_running latest.status)
        (validation (format "job {} is not running and cannot be cancelled" (id ∷ []))))
  now ← ask env.clock
  let job : JobRecord = record {
    schema_version = job_schema_version;
    id = id;
    command = latest.command;
    status = cancelled;
    exit_code = none;
    log_path = latest.log_path;
    created_at = latest.created_at;
    completed_at = some now;
  }
  append_row env job
  pure job
