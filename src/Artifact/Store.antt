-- ===== src/Artifact/Store.antt =====
-- crates/rlab-core/src/artifact/store.rs: putting files and directories into the store, promoting
-- them to artifacts, and looking artifacts up. A file operation may fail; a failed copy may leave
-- a part of what it copies, and the other failures leave the files as they were. A source does not
-- change while it is ingested. The sum of the sizes in a tree stays below 2 ^ 64.
pub mod Held
pub mod Growth
pub mod Backed
pub mod Plain
pub mod Promoted
pub mod Truncated
use research_lab.Prelude.{
  ℕ, zero, suc, ◌+◌, ◌==◌, ◌||◌, Bool, true, false, not, ◌&&◌, Option, none, some, List, [], ◌∷◌,
  ◌++◌, if◌then◌else◌, length, map, Ordering, is_some,
}
use Prim.Native.Nat.{bit_and}
use research_lab.Prelude.Text.{Text, txt, is_blank, text_cmp, text_eq}
use research_lab.Prelude.Outcome.{RlabResult, ok, err, RlabError, artifact, format}
use research_lab.Prelude.Assoc
use research_lab.Prelude.Effect.{
  World, Exec, Failures, pure, raise, lift, reads, ◌>>=◌, ◌>>◌, perform, ask,
}
use research_lab.Artifact.Reference.{
  ArtifactReference, ArtifactPathReference, parse_artifact_path_reference,
}
use research_lab.Artifact.Layout.{
  ArtifactManifest, ArtifactStorageType, file, directory, TreeEntry, TreeManifest, Contents, File,
  blob, tree, manifest, text, rows, Files, Sha256, tree_digest, blob_path, tree_path, manifest_path,
  alias_path, index_file, index_rows, artifact_schema_version, tree_schema_version,
}

pub record StoredArtifact : Type 0 where
  pub sha256 : Text
  pub storage_type : ArtifactStorageType
  pub object_path : Text
  pub source_path : Text
  pub size_bytes : ℕ

pub record PromoteRequest : Type 0 where
  pub source : Text
  pub artifact_kind : Text
  pub name : Text
  pub version : Text
  pub alias : Option Text

-- A file below a directory, in the order of the walk; its relative path is nothing if it is not
-- UTF-8.
pub record SourceFile : Type 0 where
  pub relative : Option Text
  pub contents : Contents
  pub mode : ℕ

-- What is found at the path of a source.
pub data Source : Type 0 where
  plain_file : Contents → Source
  folder : List SourceFile → Source
  neither : Source

-- How the n-th operation fails, what a failed copy leaves, the clock, and the digest.
pub record Environment : Type 0 where
  pub failure : Failures
  pub remains : ℕ → Option Contents
  pub clock : ℕ → ℕ
  pub digest : Sha256

abbrev pub artifact_error : RlabError
artifact_error = artifact (format "artifact kind and name are required" [])

-- `path.to_str().map(|value| value.replace('\\', "/"))`
unfoldable pub relative_to_string : Option Text → RlabResult Text
relative_to_string none = err (artifact (format "artifact path is not UTF-8: {}" ([] ∷ [])))
relative_to_string (some path) = ok (map (λ c. if c == 0x5c then b'/' else c) path)

-- `entries.sort_by(|left, right| left.path.cmp(&right.path))`, which is stable.
pub insert_entry : TreeEntry → List TreeEntry → List TreeEntry
insert_entry e [] = e ∷ []
insert_entry e (x ∷ xs) =
    let rest = insert_entry e xs in
    elim (text_cmp e.path x.path) [ Ordering.gt ↦ x ∷ rest | _ ↦ e ∷ x ∷ xs ]

pub sort_entries : List TreeEntry → List TreeEntry
unfolding insert_entry
sort_entries [] = []
sort_entries (e ∷ es) = insert_entry e (sort_entries es)

abbrev pub total_size : List TreeEntry → ℕ
total_size [] = 0
total_size (e ∷ es) = e.size_bytes + total_size es

abbrev pub put : Text → File → Files → Files
put path f files = Assoc.insert path f files

abbrev pub leave : Text → Option Contents → Files → Files
leave path none files = files
leave path (some part) files = put path (blob part) files

abbrev pub stored_file : Text → Contents → Text → Text → StoredArtifact
stored_file source_path source digest object_path = record {
  sha256 = digest;
  storage_type = file;
  object_path = object_path;
  source_path = source_path;
  size_bytes = length source;
}

abbrev pub tree_entry : SourceFile → Text → Text → TreeEntry
tree_entry f path digest = record {
  path = path;
  sha256 = digest;
  size_bytes = length f.contents;
  mode = f.mode;
  executable = not (bit_and f.mode 0x49 == 0);
}

abbrev pub tree_of : List TreeEntry → Text → TreeManifest
tree_of entries digest = record {
  schema_version = tree_schema_version;
  digest = digest;
  entries = entries;
}

abbrev pub stored_directory : Text → List TreeEntry → Text → Text → StoredArtifact
stored_directory source_path entries digest path = record {
  sha256 = digest;
  storage_type = directory;
  object_path = path;
  source_path = source_path;
  size_bytes = total_size entries;
}

abbrev pub manifest_of : PromoteRequest → StoredArtifact → ℕ → ArtifactManifest
manifest_of request stored now = record {
  schema_version = artifact_schema_version;
  reference = record {
    kind = request.artifact_kind;
    name = request.name;
    version = if is_blank request.version then stored.sha256 else request.version;
  };
  sha256 = stored.sha256;
  storage_type = stored.storage_type;
  object_path = stored.object_path;
  source_path = stored.source_path;
  size_bytes = stored.size_bytes;
  alias = request.alias;
  created_at = now;
}

module _ (env : Environment) where
  -- An operation that changes no file of the store: a read, or the making of a directory.
  abbrev pub touch : Exec Files (Unit {0})
  touch = perform env.failure (λ f. f)

  abbrev pub write : Text → File → Exec Files (Unit {0})
  write path f = perform env.failure (put path f)

  -- `copy_file_fast`: a copy that fails may leave a part.
  pub copy_file : Contents → Text → Exec Files (Unit {0})
  copy_file source destination w = elim (env.failure w.steps) [
    | none ↦ (ok tt, record { files = put destination (blob source) w.files; steps = suc w.steps })
    | some e ↦ (
      err e,
      record { files = leave destination (env.remains w.steps) w.files; steps = suc w.steps },
    )
  ]

  abbrev pub exists : Text → Exec Files Bool
  exists path = reads (λ f. ok (is_some (Assoc.get path f)))

  -- `if !path.exists() { ensure_parent_dir(…)?; make()?; }`
  abbrev pub unless : Bool → Exec Files (Unit {0}) → Exec Files (Unit {0})
  unless there make = if there then pure tt else (touch >> make)

  pub ingest_file : Text → Contents → Exec Files StoredArtifact
  unfolding copy_file
  ingest_file source_path source = do
    touch
    let digest = env.digest.sha256_bytes source
    object_path ← lift (blob_path digest)
    there ← exists object_path
    unless there (copy_file source object_path)
    touch
    pure (stored_file source_path source digest object_path)

  -- The walk over the files of a directory.
  pub ingest_entries : Text → List SourceFile → Exec Files (List TreeEntry)
  unfolding ingest_file relative_to_string
  ingest_entries source_path [] = pure []
  ingest_entries source_path (f ∷ fs) = do
    touch
    stored ← ingest_file source_path f.contents
    touch
    path ← lift (relative_to_string f.relative)
    rest ← ingest_entries source_path fs
    pure (tree_entry f path stored.sha256 ∷ rest)

  pub ingest_directory : Text → List SourceFile → Exec Files StoredArtifact
  unfolding ingest_entries sort_entries
  ingest_directory source_path fs = do
    walked ← ingest_entries source_path fs
    let entries = sort_entries walked
    let digest = tree_digest env.digest entries
    let path = tree_path digest
    there ← exists path
    unless there (write path (tree (tree_of entries digest)))
    pure (stored_directory source_path entries digest path)

  unfoldable pub ingest_path : Text → Source → Exec Files StoredArtifact
  unfolding ingest_file ingest_directory
  ingest_path source_path source = do
    touch
    elim source [
      | plain_file contents ↦ ingest_file source_path contents
      | folder files ↦ ingest_directory source_path files
      | neither ↦
          raise
            (artifact (format "artifact source is not a file or directory: {}" (source_path ∷ [])))
    ]

  pub write_manifest : ArtifactManifest → Exec Files (Unit {0})
  write_manifest m = do touch; write (manifest_path m.reference) (manifest m)

  pub append_index : ArtifactManifest → Exec Files (Unit {0})
  append_index m =
      perform env.failure
        (λ f. put index_file (rows (index_rows (Assoc.get index_file f) ++ m ∷ [])) f)

  pub write_alias : ArtifactManifest → Exec Files (Unit {0})
  write_alias m = elim m.alias [
    | none ↦ pure tt
    | some alias ↦ (do touch; write (alias_path m.reference alias) (text m.reference.version))
  ]

  pub publish : ArtifactManifest → Exec Files ArtifactManifest
  unfolding write_manifest append_index write_alias
  publish m = do write_manifest m; append_index m; write_alias m; pure m

  unfoldable pub promote : PromoteRequest → Source → Exec Files ArtifactManifest
  unfolding ingest_path publish
  promote request source =
      if is_blank request.artifact_kind || is_blank request.name then raise artifact_error else (do
        stored ← ingest_path request.source source
        now ← ask env.clock
        publish (manifest_of request stored now))
