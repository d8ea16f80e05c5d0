-- ===== src/Run/Session.antt =====
-- `RunSession` of crates/rlab-core/src/run/lifecycle.rs: creating a run, what is recorded while it
-- runs, and the three ways in which it ends.
pub mod Move
pub mod Ending
pub mod Faults
use research_lab.Prelude.{
  ℕ, suc, Bool, true, false, Option, none, some, List, [], ◌∷◌, ◌++◌, if◌then◌else◌,
}
use research_lab.Prelude.Text.{Text, txt}
use research_lab.Prelude.Outcome.{RlabResult, RlabError, ok, err, run, format, display}
use research_lab.Prelude.Assoc.{Assoc}
use research_lab.Json.{Value}
use research_lab.Run.State.{
  RunStatus, created, running, completed, failed, as_str, can_transition_to,
}
use research_lab.Run.Metric.{Metric, MetricLine, entry, validate, read_metrics, summarize}
use research_lab.Run.Files.{
  RunDirectory, Report, RunFiles, World, Environment, Exec, effect, attempt, now_utc, dropping_lock,
}
use research_lab.Prelude.Effect.{pure, raise, lift, reads, ◌>>=◌, ◌>>◌}

abbrev pub run_schema_version : ℕ
run_schema_version = 1

abbrev pub lines_of : {A : Type 0} → Option (List A) → List A
lines_of none = []
lines_of (some l) = l

-- `format!("storage finalize skipped: {error}")`
unfoldable pub skipped : RlabError → Text
skipped error = txt "storage finalize skipped: " ++ display error

module _ (env : Environment) where
  unfoldable pub write_manifest : RunDirectory → Exec (Unit {0})
  write_manifest d = do
    effect env (λ f. record f { manifest = some d })
    effect env (λ f. record f { manifest_yaml = some d })

  -- `transition` past its guard: the manifest is written before the status.
  unfoldable pub enter : RunDirectory → RunStatus → Exec RunDirectory
  unfolding write_manifest
  enter d status = do
    now ← now_utc env
    let d' : RunDirectory = record d { status = status; updated_at = now }
    write_manifest d'
    effect env (λ f. record f { status = some (as_str status) })
    pure d'

  -- `transition`, with the session's new directory.
  unfoldable pub transition : RunDirectory → RunStatus → Exec RunDirectory
  unfolding enter
  transition d status =
      if can_transition_to d.status status
      then enter d status
      else raise (
          run (format "invalid status transition: {} -> {}" (as_str d.status ∷ as_str status ∷ [])))

  -- `write_metric_summary`, with the reading of the metrics.
  unfoldable pub write_metric_summary : Exec (Unit {0})
  write_metric_summary = do
    effect env (λ f. f)
    metrics ← reads (λ f. read_metrics (lines_of f.metrics))
    effect env (λ f. record f { summary = some (summarize [] metrics) })

  unfoldable pub write_report : RunDirectory → Exec (Unit {0})
  write_report d = effect env λ f. record f {
    report =
        some
          (record { id = d.id; operation = d.operation; name = d.name; status = as_str d.status });
  }

  pub append_metric : Metric → Exec (Unit {0})
  append_metric m = do
    lift (validate m)
    effect env (λ f. record f { metrics = some (lines_of f.metrics ++ entry m ∷ []) })

  pub append_log : Text → Exec (Unit {0})
  append_log message = do
    now ← now_utc env
    effect env (λ f. record f { events = f.events ++ (message, now) ∷ [] })

  unfoldable pub append_note : Text → Exec (Unit {0})
  append_note message = do
    now ← now_utc env
    effect env (λ f. record f { notes = f.notes ++ (message, now) ∷ [] })

  pub save_artifact_reference : Value → Exec (Unit {0})
  save_artifact_reference artifact = do
    staged ← lift (env.stage artifact)
    effect env (λ f. record f { artifacts = f.artifacts ++ staged ∷ [] })

  -- `finalize_storage`: an error ends as a note, and a note that fails is dropped. The appending
  -- of a note makes the directory again if the policy has removed it.
  unfoldable pub finalize_storage : World → World
  unfolding append_note
  finalize_storage w =
      let managed : World = record w { files = (env.finalize w.files).1 } in
      elim (env.finalize w.files).0 [
        | ok _ ↦ managed
        | err error ↦ (append_note (skipped error) managed).1
      ]

  -- The three calls in a row of every ending: the summary, the change of status, the report.
  unfoldable pub close : RunDirectory → RunStatus → Exec RunDirectory
  close d status = do write_metric_summary; d' ← transition d status; write_report d'; pure d'

  unfoldable pub complete : RunDirectory → Value → Exec RunDirectory
  unfolding close finalize_storage
  complete d result = dropping_lock env (do
    effect env (λ f. record f { results = some result })
    d' ← close d completed
    (λ w. (ok d', finalize_storage w)))

  pub fail : RunDirectory → Text → Exec RunDirectory
  unfolding close
  fail d message =
      dropping_lock env (do effect env (λ f. record f { error = some message }); close d failed)

  pub fail_with_result : RunDirectory → Text → Value → Exec RunDirectory
  unfolding close
  fail_with_result d message result = dropping_lock env (do
    effect env (λ f. record f { results = some result })
    effect env (λ f. record f { error = some message })
    close d failed)
