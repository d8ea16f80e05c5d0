-- ===== src/Artifact/Resolve/Tests.antt =====
-- A directory with two completed runs of a target and one that failed.
use research_lab.Prelude.{true, none, some, List, [], ◌∷◌, ◌≡◌, refl, if◌then◌else◌}
use research_lab.Prelude.Text.{Text, txt, text_eq, text_cmp, starts_with, split_once}
use research_lab.Prelude.Outcome.{RlabResult, ok}
use research_lab.Prelude.Sorting.{sort_by, max_by_key}
use research_lab.Json.{null, Number}
use research_lab.Artifact.Layout.{join}
use research_lab.Run.State.{RunStatus}
use research_lab.Run.Files.{RunDirectory}
use research_lab.Run.Query.{
  RunSummary, run_summary, Serde, Disk, list_runs, read_run, read_run_file, read_to_string,
  validate_schema, push_run_summary_if_valid, sort_runs_newest_first,
}
use research_lab.Artifact.Resolve.{split_suffix, rest_of, matches_target, resolve_run_reference}
use research_lab.Artifact.Resolve.Latest.{Resolves, resolve_run_reference-Resolves}

abbrev run_of : Text → RunStatus → RunDirectory
run_of id status = record {
  schema_version = 1;
  id = id;
  operation = txt "train";
  name = txt "net";
  status = status;
  path = id;
  created_at = 0;
  updated_at = 0;
  command = [];
  parameters = null;
  notes = none;
  parent_run_id = none;
  parent_target = none;
}

abbrev entries : List (RlabResult Text)
entries = ok (txt "1") ∷ ok (txt "2") ∷ ok (txt "3") ∷ []

abbrev disk : Disk
disk = record {
  file = λ path. some (ok path);
  lines = λ path. [];
  is_dir = λ path. true;
  entries = λ path. some (ok entries);
}

abbrev manifest_at : Text → RunDirectory
manifest_at path =
    if text_eq path (txt "r/1/run.json")
    then run_of (txt "1") RunStatus.completed
    else if text_eq path (txt "r/2/run.json")
    then run_of (txt "2") RunStatus.completed
    else run_of (txt "3") RunStatus.failed

abbrev serde : Serde
serde = record {
  from_str = λ text. ok null;
  run_from_str = λ text. ok (manifest_at text);
  as_f64 = λ n. 0;
  from_f64 = λ n. Number.float n;
}

abbrev listed : List RunSummary
listed =
    run_summary (run_of (txt "3") RunStatus.failed) (txt "r/3")
    ∷ run_summary (run_of (txt "2") RunStatus.completed) (txt "r/2")
    ∷ run_summary (run_of (txt "1") RunStatus.completed) (txt "r/1")
    ∷ []

lists : list_runs serde disk (txt "r") ≡ ok listed
unfolding list_runs read_run read_run_file read_to_string validate_schema push_run_summary_if_valid
    sort_runs_newest_first sort_by join starts_with text_eq text_cmp
lists = refl

spelled :
    split_once b':' (split_suffix (rest_of (txt "@train:net/model"))).0
    ≡ some (txt "train", txt "net")
unfolding split_suffix split_once
spelled = refl

resolve_test :
    resolve_run_reference serde disk (txt "r") (txt "@train:net/model") ≡ ok (txt "r/2/model")
unfolding list_runs read_run read_run_file read_to_string validate_schema push_run_summary_if_valid
    sort_runs_newest_first sort_by join starts_with text_eq text_cmp resolve_run_reference
    matches_target max_by_key split_suffix split_once
resolve_test = refl

resolve_run_reference-Resolves_example :
    Resolves serde disk
      (txt "r")
      (txt "train")
      (txt "net")
      entries
      (split_suffix (rest_of (txt "@train:net/model"))).1
      (resolve_run_reference serde disk (txt "r") (txt "@train:net/model"))
resolve_run_reference-Resolves_example =
    resolve_run_reference-Resolves serde disk (txt "r") (txt "@train:net/model") (txt "train")
      (txt "net") entries listed spelled refl lists
