-- ===== src/Run/Compare/Tests.antt =====
-- A directory with one run.
use research_lab.Prelude.{false, true, none, some, [], ◌∷◌, ◌≡◌, refl, inl}
use research_lab.Prelude.Text.{txt, text_cmp, starts_with}
use research_lab.Prelude.Outcome.{ok, is_ok}
use research_lab.Json.{Value, null, Number, number, object, field, end, get_field}
use research_lab.Artifact.Layout.{join}
use research_lab.Run.State.{RunStatus}
use research_lab.Run.Files.{RunDirectory}
use research_lab.Run.Compare.{compare_runs}
use research_lab.Run.Query.{
  RunSummary, run_summary, Serde, Disk, list_runs, read_run, read_run_file, read_to_string,
  validate_schema, push_run_summary_if_valid, sort_runs_newest_first,
}
use research_lab.Prelude.Sorting.{sort_by}
use research_lab.Run.Compare.Refused.{compare_runs-refused}

abbrev probe : RunDirectory
probe = record {
  schema_version = 1;
  id = txt "e_probe_1";
  operation = txt "experiment";
  name = txt "probe";
  status = RunStatus.completed;
  path = txt "runs/e_probe_1";
  created_at = 0;
  updated_at = 0;
  command = [];
  parameters = null;
  notes = none;
  parent_run_id = none;
  parent_target = none;
}

abbrev disk : Disk
disk = record {
  file = λ path. some (ok path);
  lines = λ path. [];
  is_dir = λ path. true;
  entries = λ path. some (ok (ok (txt "e_probe_1") ∷ []));
}

abbrev summary : Value
summary = object (field (txt "metrics") (number (Number.pos_int 3)) end)

abbrev serde : Serde
serde = record {
  from_str = λ text. ok summary;
  run_from_str = λ text. ok probe;
  as_f64 = λ n. 0;
  from_f64 = λ n. Number.float n;
}

abbrev probe_summary : RunSummary
probe_summary = run_summary probe (txt "runs/e_probe_1")

lists : list_runs serde disk (txt "runs") ≡ ok (probe_summary ∷ [])
unfolding list_runs read_run read_run_file read_to_string validate_schema push_run_summary_if_valid
    sort_runs_newest_first sort_by join starts_with
lists = refl

metrics_metric :
    get_field (txt "metrics") (field (txt "metrics") (number (Number.pos_int 3)) end)
    ≡ some (number (Number.pos_int 3))
unfolding get_field text_cmp
metrics_metric = refl

compare_runs-refused_example : is_ok (compare_runs serde disk (txt "runs") none) ≡ false
compare_runs-refused_example =
    compare_runs-refused serde disk (txt "runs") none (probe_summary ∷ []) lists (
      inl (
        join (join (txt "runs") (txt "e_probe_1")) (txt "metrics_summary.json"),
        field (txt "metrics") (number (Number.pos_int 3)) end,
        Number.pos_int 3,
        refl,
        refl,
        metrics_metric,
      ))
