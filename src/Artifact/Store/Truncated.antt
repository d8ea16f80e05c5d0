-- ===== src/Artifact/Store/Truncated.antt =====
-- A copy that is broken off leaves an object that later ingestions take for whole.
use research_lab.Prelude.{◌≡◌, ap, ◌∙◌, ℕ, suc, none, some, arith}
use research_lab.Prelude.Text.{Text}
use research_lab.Prelude.Outcome.{RlabResult, ok, err, RlabError}
use research_lab.Prelude.Assoc
use research_lab.Prelude.Assoc.{get-insert_self}
use research_lab.Prelude.Effect.{World, perform}
use research_lab.Artifact.Layout.{Contents, File, blob, Files, blob_path}
use research_lab.Artifact.Store.{
  StoredArtifact, Environment, put, copy_file, ingest_file, stored_file,
}

broken_off :
    (env : Environment) (source_path : Text) (source part : Contents) (path : Text)
    (w : World Files) (e : RlabError)
    → blob_path (env.digest.sha256_bytes source) ≡ ok path
    → Assoc.get path w.files ≡ none
    → env.failure w.steps ≡ none
    → env.failure (suc w.steps) ≡ none
    → env.failure (suc (suc w.steps)) ≡ some e
    → env.remains (suc (suc w.steps)) ≡ some part
    → ingest_file env source_path source w
      ≡ (err e, record { files = put path (blob part) w.files; steps = suc (suc (suc w.steps)) })
unfolding ingest_file copy_file perform
broken_off env source_path source part path w e at free f0 f1 f2 left = ground arith

taken_for_whole :
    (env : Environment) (source_path : Text) (source : Contents) (path : Text) (w : World Files)
    (x : File)
    → blob_path (env.digest.sha256_bytes source) ≡ ok path
    → Assoc.get path w.files ≡ some x
    → ((n : ℕ) → env.failure n ≡ none)
    → ingest_file env source_path source w ≡ (
      ok (stored_file source_path source (env.digest.sha256_bytes source) path),
      record { files = w.files; steps = suc (suc w.steps) },
    )
unfolding ingest_file copy_file perform
taken_for_whole env source_path source path w x at there fine =
    ground (arith, fine w.steps, fine (suc w.steps))

-- When a copy into the store is broken off and leaves a part, the part stays in the place of the
-- whole: ingesting the same file again, with no operation failing, returns the digest of the whole
-- and leaves the part.
pub truncated_copy :
    (env env' : Environment) (source_path : Text) (source part : Contents) (path : Text)
    (w : World Files) (e : RlabError)
    → blob_path (env.digest.sha256_bytes source) ≡ ok path
    → blob_path (env'.digest.sha256_bytes source) ≡ ok path
    → Assoc.get path w.files ≡ none
    → env.failure w.steps ≡ none
    → env.failure (suc w.steps) ≡ none
    → env.failure (suc (suc w.steps)) ≡ some e
    → env.remains (suc (suc w.steps)) ≡ some part
    → ((n : ℕ) → env'.failure n ≡ none)
    → ((ingest_file env source_path source w).0 ≡ err e)
      × ((ingest_file env' source_path source (ingest_file env source_path source w).1).0
          ≡ ok (stored_file source_path source (env'.digest.sha256_bytes source) path))
      × (Assoc.get path
            (ingest_file env' source_path source (ingest_file env source_path source w).1).1.files
          ≡ some (blob part))
truncated_copy env env' source_path source part path w e at at' free f0 f1 f2 left fine =
    let first = broken_off env source_path source part path w e at free f0 f1 f2 left in
    let w1 : World Files = record {
      files = put path (blob part) w.files;
      steps = suc (suc (suc w.steps));
    } in
    let there = get-insert_self path (blob part) w.files in
    let second = taken_for_whole env' source_path source path w1 (blob part) at' there fine in
    let again =
      ap (λ (r : RlabResult StoredArtifact × World Files). ingest_file env' source_path source r.1)
        first
      ∙ second in
    (
      ap (λ (r : RlabResult StoredArtifact × World Files). r.0) first,
      ap (λ (r : RlabResult StoredArtifact × World Files). r.0) again,
      ap (λ (r : RlabResult StoredArtifact × World Files). Assoc.get path r.1.files) again ∙ there,
    )
