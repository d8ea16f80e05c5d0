-- ===== src/Run/Tests.antt =====
-- Runs at concrete inputs.
use research_lab.Prelude.{
  ◌≡◌, ◌⊎◌, ◌≢◌, ◌↔◌, refl, true, false, none, some, [], ◌∷◌, ℕ, ◌≤◌, if◌then◌else◌, ◌==◌,
}
use research_lab.Prelude.Text.{txt}
use research_lab.Prelude.Outcome.{
  RlabError, RlabResult, Message, ok, err, is_ok, display, message_text, fill,
}
use research_lab.Json.{null, object, end}
use research_lab.Run.State.{
  created, running, completed, failed, stale, as_str, parse, can_transition_to,
}
use research_lab.Run.Order.{History, History-short, parse-eq-ok_iff}
use research_lab.Run.Files.{
  RunDirectory, RunFiles, World, Environment, dropping_lock, effect, attempt, now_utc,
}
use research_lab.Prelude.Effect.{perform}
use research_lab.Prelude.Effect.Triple.{Post}
use research_lab.Run.Metric.{read_metrics, summarize}
use research_lab.Run.Session.{
  complete, fail, fail_with_result, close, transition, enter, write_manifest, write_metric_summary,
  write_report, finalize_storage, append_note, skipped,
}
use research_lab.Run.Session.Move.{Records}
use research_lab.Run.Session.Ending.{Ended, Reported, Managed, Broken}
use research_lab.Run.Session.Faults.{complete_outcome, fail_outcome}
use research_lab.Run.Create.{Request, create}
use research_lab.Run.Create.Fresh.{Held, Refused, create_outcome}

aged : History created stale 3
unfolding can_transition_to
aged =
    History.step {t = completed}
      (History.step {t = running} (History.step {t = created} History.start refl) refl) refl

History-short_example : (3 ≤ 4) × ((◌≡◌ {A = ℕ} 3 0) ⊎ (created ≢ stale))
History-short_example = History-short created stale 3 aged

parse-eq-ok_iff_example : (parse (txt "running") ≡ ok running) ↔ (txt "running" ≡ as_str running)
parse-eq-ok_iff_example = parse-eq-ok_iff (txt "running") running

abbrev request : Request
request = record {
  id = ok (txt "experiment_demo_1");
  operation = txt "experiment";
  name = txt "demo";
  runs = txt "runs";
  command = [];
  parameters = object end;
  parent_run_id = none;
  parent_target = none;
}

-- The operation with the given number fails.
abbrev failing_at : ℕ → Environment
failing_at n = record {
  failure = λ k.
      if k == n then some (RlabError.io (txt "runs") (Message.format "no space left" [])) else none;
  clock = λ k. k;
  stage = ok;
  finalize = λ f. (ok tt, f);
}

abbrev empty_dir : World
empty_dir = record {
  files = record {
    directories = [];
    locked = false;
    manifest = none;
    manifest_yaml = none;
    status = none;
    params = none;
    metrics = none;
    summary = none;
    results = none;
    error = none;
    report = none;
    events = [];
    notes = [];
    artifacts = [];
    reproducibility = false;
  };
  steps = 0;
}

abbrev started : RunDirectory
started = record {
  schema_version = 1;
  id = txt "experiment_demo_1";
  operation = txt "experiment";
  name = txt "demo";
  status = running;
  path = txt "runs/experiment_demo_1";
  created_at = 0;
  updated_at = 1;
  command = [];
  parameters = object end;
  notes = none;
  parent_run_id = none;
  parent_target = none;
}

abbrev running_dir : World
running_dir = record {
  files = record empty_dir.files {
    locked = true;
    manifest = some started;
    manifest_yaml = some started;
    status = some (as_str running);
  };
  steps = 0;
}

complete_outcome_example :
    let r = complete (failing_at 5) started null running_dir in
    Post
      (λ d' f.
        (g : RunFiles) × Ended completed running_dir.files.metrics (λ f. f.results ≡ some null) d' g
        × Reported d' g
        × Managed (failing_at 5) g f)
      (Broken
        (failing_at 5)
        running_dir.files.metrics
        running_dir.files.status
        completed
        (λ f. f.results ≡ some null))
      r.0
      r.1.files
complete_outcome_example = complete_outcome (failing_at 5) started null running_dir

fail_outcome_example :
    let r = fail (failing_at 2) started (txt "boom") running_dir in
    let q = fail_with_result (failing_at 2) started (txt "boom") null running_dir in
    Post
      (λ d' f.
        Ended failed running_dir.files.metrics (λ f. f.error ≡ some (txt "boom")) d' f
        × Reported d' f)
      (Broken
        (failing_at 2)
        running_dir.files.metrics
        running_dir.files.status
        failed
        (λ f. f.error ≡ some (txt "boom")))
      r.0
      r.1.files
    × Post
        (λ d' f.
          Ended failed running_dir.files.metrics
            (λ f. (f.results ≡ some null) × (f.error ≡ some (txt "boom")))
            d'
            f
          × Reported d' f)
        (Broken
          (failing_at 2)
          running_dir.files.metrics
          running_dir.files.status
          failed
          (λ f. (f.results ≡ some null) × (f.error ≡ some (txt "boom"))))
        q.0
        q.1.files
fail_outcome_example = fail_outcome (failing_at 2) started (txt "boom") null running_dir

-- The storage policy removes the directory of the run, and then fails.
abbrev pruned : RunFiles → RlabResult (Unit {0}) × RunFiles
pruned f = (
  err (RlabError.config (Message.format "{} is not a directory" (txt "out" ∷ []))),
  empty_dir.files,
)

-- Then the completion returns all the same, and leaves only the note.
completes_without_run :
    let r = complete (record (failing_at 99) { finalize = pruned }) started null running_dir in
    (is_ok r.0 ≡ true)
    × (r.1.files ≡ record empty_dir.files {
      notes = (txt "storage finalize skipped: configuration error: out is not a directory", 8) ∷ [];
    })
unfolding complete dropping_lock effect attempt perform close transition enter write_manifest
    write_metric_summary write_report now_utc finalize_storage append_note skipped display
    message_text fill can_transition_to read_metrics summarize
completes_without_run = (refl, refl)

create_outcome_example :
    let c = create (failing_at 20) request empty_dir in
    Post
      (λ d f. Held request f × Records d f × (d.status ≡ running))
      (Refused (failing_at 20) request none none false)
      c.0
      c.1.files
create_outcome_example = create_outcome (failing_at 20) request empty_dir
