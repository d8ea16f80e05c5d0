-- ===== src/Run/Query/Records.antt =====
-- The records of crates/rlab-core/src/run/query.rs and their queries. `wildcard_match` is that of
-- Storage.Glob.
use research_lab.Prelude.{
  Bool, true, false, ◌&&◌, ◌==◌, Option, none, some, is_some, or_else, List, [], ◌∷◌, ◌++◌, keep_if,
  Ordering, if◌then◌else◌,
}
use research_lab.Prelude.Text.{Text, txt, text_cmp, as_bytes}
use research_lab.Prelude.Outcome.{RlabResult, ok, serialization, format, ◌>>=◌, ok_or}
use research_lab.Prelude.Sorting.{sort_by}
use research_lab.Json.{
  Number, pos_int, neg_int, Value, number, object, Fields, end, field, get_field, insert_field,
  as_object, as_str,
}
use research_lab.Artifact.Layout.{join}
use research_lab.Storage.Glob.{glob_match}
use research_lab.Run.Query.{Disk, Serde, read_json_or_default}

pub record RunRecord : Type 0 where
  pub run_id : Text
  pub path : Text
  pub manifest : Fields
  pub params : Fields
  pub metrics : Fields

-- `left.run_id.cmp(&right.run_id)`
abbrev pub later_id : RunRecord → RunRecord → Bool
later_id left right = elim (text_cmp left.run_id right.run_id) [ Ordering.gt ↦ true | _ ↦ false ]

fields_or_refuse : Value → RlabResult Fields
fields_or_refuse v = ok_or (as_object v) (serialization (format "expected JSON object" []))

module _ (serde : Serde) where
  unfoldable pub numeric_metrics : Fields → Fields
  numeric_metrics end = end
  numeric_metrics (field k v m) =
      let rest = numeric_metrics m in
      elim v [
        | number n ↦ insert_field k (number (serde.from_f64 (serde.as_f64 n))) rest
        | _ ↦ rest
      ]

  unfoldable pub metrics_object : Fields → Fields
  unfolding numeric_metrics
  metrics_object raw = elim (get_field (txt "metrics") raw) [
    | some (object nested) ↦ numeric_metrics nested
    | _ ↦ numeric_metrics raw
  ]

module _ (serde : Serde) (disk : Disk) where
  unfoldable pub read_json_object : Text → RlabResult Fields
  unfolding read_json_or_default fields_or_refuse
  read_json_object path = read_json_or_default serde disk path (object end) >>= fields_or_refuse

  unfoldable pub read_json_object_or_default : Text → RlabResult Fields
  unfolding read_json_object
  read_json_object_or_default path =
      if is_some (disk.file path) then read_json_object path else ok end

  unfoldable pub read_run_record : Text → Text → RlabResult RunRecord
  unfolding read_json_object read_json_object_or_default metrics_object join
  read_run_record name path = do
    manifest ← read_json_object (join path (txt "run.json"))
    params ← read_json_object_or_default (join path (txt "params.json"))
    raw ← read_json_object_or_default (join path (txt "metrics_summary.json"))
    ok (record {
      run_id = name;
      path = path;
      manifest = manifest;
      params = params;
      metrics = metrics_object serde raw;
    })

  records_of : Text → List (RlabResult Text) → RlabResult (List RunRecord)
  unfolding join read_run_record
  records_of root [] = ok []
  records_of root (entry ∷ entries) =
      let rest = records_of root entries in
      entry >>= λ name.
      if disk.is_dir (join root name)
        && is_some (disk.file (join (join root name) (txt "run.json")))
      then read_run_record name (join root name) >>= (λ r. rest >>= λ rs. ok (r ∷ rs))
      else rest

  unfoldable pub all_run_records : Text → RlabResult (List RunRecord)
  unfolding records_of sort_by
  all_run_records root = elim (disk.entries root) [
    | none ↦ ok []
    | some listing ↦ (do
      entries ← listing
      records ← records_of root entries
      ok (sort_by later_id records))
  ]

-- `target.get(key).and_then(Value::as_str).unwrap_or_default()`
unfoldable pub text_at : Text → Fields → Text
text_at key m = elim (get_field key m) [
  | none ↦ []
  | some v ↦ elim (as_str v) [ none ↦ [] | some t ↦ t ]
]

unfoldable pub target_name : RunRecord → Text
unfolding text_at
target_name r = elim (get_field (txt "target") r.manifest) [
  | some (object target) ↦ text_at (txt "kind") target ++ b':' ∷ text_at (txt "name") target
  | some v ↦ elim (as_str v) [ none ↦ [] | some t ↦ t ]
  | none ↦ text_at (txt "operation") r.manifest ++ b':' ∷ text_at (txt "name") r.manifest
]

-- An `i64` as the number that JSON has for it.
abbrev pub is_i64 : Value → Number → Bool
is_i64 (number (pos_int a)) (pos_int b) = a == b
is_i64 (number (neg_int a)) (neg_int b) = a == b
is_i64 v n = false

unfoldable pub seed_matches : RunRecord → Option Number → Bool
seed_matches r none = true
seed_matches r (some expected) =
    elim (or_else (get_field (txt "seed") r.manifest) (get_field (txt "seed") r.params)) [
      | none ↦ false
      | some v ↦ is_i64 v expected
    ]

unfoldable pub target_matches : RunRecord → Option Text → Bool
unfolding as_bytes glob_match target_name
target_matches r none = true
target_matches r (some pattern) = glob_match (as_bytes pattern) (as_bytes (target_name r))

unfoldable pub query_run_records :
    Serde → Disk → Text → Option Text → Option Number → RlabResult (List RunRecord)
unfolding all_run_records target_matches seed_matches
query_run_records serde disk root target seed = do
  records ← all_run_records serde disk root
  ok (keep_if (λ r. target_matches r target && seed_matches r seed) records)
