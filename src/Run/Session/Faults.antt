-- ===== src/Run/Session/Faults.antt =====
-- The outcomes of the endings of a run, in one statement for each.
use research_lab.Prelude.{◌≡◌, refl, some}
use research_lab.Prelude.Text.{Text}
use research_lab.Json.{Value}
use research_lab.Run.State.{completed, failed}
use research_lab.Run.Files.{RunDirectory, RunFiles, World, Environment}
use research_lab.Prelude.Effect.Triple.{Post}
use research_lab.Run.Session.{complete, fail, fail_with_result}
use research_lab.Run.Session.Ending.{
  Ended, Reported, Managed, Broken, complete-Triple, fail-Triple, fail_with_result-Triple,
}

-- Whichever file operations fail: when the storage policy of a completion that returns starts, the
-- manifest, its YAML copy and the status file say `completed`, and the result, the summary of the
-- metrics that were logged and the report are there; what the completion leaves is what the policy
-- makes of these files, of which it may remove any, but for the lock and at most one more note, of
-- the policy's error.
-- A completion that does not return leaves the status file as it was, or all of these files but the
-- report. So up to the policy no reader meets the status `completed` beside a missing result or
-- summary.
pub complete_outcome :
    (env : Environment) (d : RunDirectory) (result : Value) (w : World)
    → let r = complete env d result w in
      Post
        (λ d' f.
          (g : RunFiles) × Ended completed w.files.metrics (λ f. f.results ≡ some result) d' g
          × Reported d' g
          × Managed env g f)
        (Broken env w.files.metrics w.files.status completed (λ f. f.results ≡ some result))
        r.0
        r.1.files
complete_outcome env d result w =
    (complete-Triple env w.files.metrics w.files.status d result).at w (refl, refl)

-- The same of a failure: the status `failed` never stands beside a missing message or summary.
-- With a result, the result is there too.
pub fail_outcome :
    (env : Environment) (d : RunDirectory) (message : Text) (result : Value) (w : World)
    → let r = fail env d message w in
      let q = fail_with_result env d message result w in
      Post
        (λ d' f. Ended failed w.files.metrics (λ f. f.error ≡ some message) d' f × Reported d' f)
        (Broken env w.files.metrics w.files.status failed (λ f. f.error ≡ some message))
        r.0
        r.1.files
      × Post
          (λ d' f.
            Ended failed w.files.metrics
              (λ f. (f.results ≡ some result) × (f.error ≡ some message))
              d'
              f
            × Reported d' f)
          (Broken env w.files.metrics w.files.status failed
            (λ f. (f.results ≡ some result) × (f.error ≡ some message)))
          q.0
          q.1.files
fail_outcome env d message result w = (
  (fail-Triple env w.files.metrics w.files.status d message).at w (refl, refl),
  (fail_with_result-Triple env w.files.metrics w.files.status d message result).at w (refl, refl),
)
