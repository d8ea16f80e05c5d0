-- ===== src/Artifact/Resolve.antt =====
-- crates/rlab-core/src/artifact/resolve.rs: the run that a reference `@<kind>:<name>[/suffix]` names.
-- A reference starts with `@`, as the callers see to; of other texts the slice of the code may panic.
pub mod Latest
mod Tests
use research_lab.Prelude.{
  Bool, true, false, ◌&&◌, Option, none, some, List, [], ◌∷◌, keep_if, if◌then◌else◌,
}
use research_lab.Prelude.Text.{Text, txt, text_eq, split_once, starts_with}
use research_lab.Prelude.Outcome.{RlabResult, ok, err, validation, format, ◌>>=◌, ok_or}
use research_lab.Prelude.Sorting.{max_by_key}
use research_lab.Json.{Value, string, object, Fields, end, field, insert_field}
use research_lab.Artifact.Layout.{join}
use research_lab.Run.State.{RunStatus, completed}
use research_lab.Run.Query.{RunSummary, Serde, Disk, list_runs}

abbrev pub is_completed : RunStatus → Bool
is_completed completed = true
is_completed s = false

unfoldable pub split_suffix : Text → Text × Option Text
split_suffix t = elim (split_once b'/' t) [
  | none ↦ (t, none)
  | some (target, suffix) ↦ (target, some suffix)
]

abbrev pub rest_of : Text → Text
rest_of [] = []
rest_of (c ∷ t) = t

unfoldable pub matches_target : Text → Text → RunSummary → Bool
matches_target kind name run =
    text_eq run.operation kind && (text_eq run.name name && is_completed run.status)

abbrev pub push_suffix : Text → Option Text → Text
push_suffix path none = path
push_suffix path (some suffix) = join path suffix

unfoldable pub resolve_run_reference : Serde → Disk → Text → Text → RlabResult Text
unfolding split_suffix list_runs matches_target max_by_key
resolve_run_reference serde disk runs_dir reference = do
  let parts : Text × Option Text = split_suffix (rest_of reference)
  target ← ok_or (split_once b':' parts.0) (
      validation
        (format "invalid run reference '{}': expected @<kind>:<name>[/suffix]" (reference ∷ [])))
  runs ← list_runs serde disk runs_dir
  latest ← ok_or (max_by_key (λ run. run.id) (keep_if (matches_target target.0 target.1) runs)) (
      validation (
        format "no completed run for '{}:{}' referenced by '{}'"
          (target.0 ∷ target.1 ∷ reference ∷ [])))
  ok (push_suffix latest.path parts.1)

-- The artifact store's `resolve_path` is a parameter, since it materializes trees.
unfoldable pub resolve_path_reference :
    (Text → RlabResult Text) → Serde → Disk → Text → Text → Text → RlabResult Text
unfolding resolve_run_reference join
resolve_path_reference resolve_path serde disk root runs_dir value =
    if starts_with (txt "artifact:") value
    then resolve_path value
    else if starts_with (txt "@") value
    then resolve_run_reference serde disk runs_dir value
    else ok (join root value)

-- One parameter: a text that starts with `@` is replaced by the path that it names.
unfoldable pub resolve_param : Serde → Disk → Text → Value → RlabResult Value
unfolding resolve_run_reference
resolve_param serde disk runs_dir (string text) =
    if starts_with (txt "@") text
    then resolve_run_reference serde disk runs_dir text >>= (λ path. ok (string path))
    else ok (string text)
resolve_param serde disk runs_dir v = ok v

unfoldable pub resolve_fields : Serde → Disk → Text → Fields → Fields → RlabResult Fields
unfolding resolve_param
resolve_fields serde disk runs_dir end resolved = ok resolved
resolve_fields serde disk runs_dir (field key value m) resolved = do
  v ← resolve_param serde disk runs_dir value
  resolve_fields serde disk runs_dir m (insert_field key v resolved)

unfoldable pub resolve_param_refs : Serde → Disk → Text → Value → RlabResult Value
unfolding resolve_fields
resolve_param_refs serde disk runs_dir (object m) = do
  resolved ← resolve_fields serde disk runs_dir m end
  ok (object resolved)
resolve_param_refs serde disk runs_dir params = ok params
