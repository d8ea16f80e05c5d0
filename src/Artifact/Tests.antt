-- ===== src/Artifact/Tests.antt =====
-- Artifacts at concrete inputs.
use research_lab.Prelude.{
  ◌≡◌, ◌↔◌, refl, arith, inl, inr, ◌==◌, true, false, none, some, List, [], ◌∷◌, ◌++◌,
  if◌then◌else◌,
}
use research_lab.Prelude.Text.{
  Text, txt, is_blank, split_once, is_whitespace, text_cmp, text_eq, has_char, starts_with,
}
use research_lab.Prelude.Outcome.{RlabError, ok, err, io, format}
use research_lab.Prelude.Assoc
use research_lab.Prelude.Effect.{World, perform, ask}
use research_lab.Storage.Collect.{GcSummary}
use research_lab.Artifact.Reference.{
  ArtifactPathReference, parse_artifact_path_reference, strip_prefix,
}
use research_lab.Artifact.Reference.Parts.{IsReference, Spells}
use research_lab.Artifact.Reference.Spelling.{parse_artifact_path_reference-eq-ok_iff}
use research_lab.Artifact.Layout.{
  Contents, TreeEntry, ArtifactManifest, ArtifactStorageType, blob, Files, Sha256, blob_path,
  tree_path, manifest_path, alias_path, trim,
}
use research_lab.Artifact.Store.{
  Environment, PromoteRequest, Source, folder, stored_file, ingest_file, ingest_path, tree_of,
  promote,
}
use research_lab.Artifact.Store.Backed.{IsBacked, promote-IsBacked}
use research_lab.Artifact.Store.Plain.{IsPlain}
use research_lab.Artifact.Store.Promoted.{describe-promote, describe-promote_alias}
use research_lab.Artifact.Store.Truncated.{truncated_copy}
use research_lab.Artifact.Lookup.{describe_parts, compare_references, list}
use research_lab.Artifact.Sweep.{
  SweepEnvironment, objects_root, reachable_objects, sweep_unreachable_objects,
}
use research_lab.Artifact.Sweep.Reach.{entry}
use research_lab.Artifact.Sweep.Kept.{sweep-keeps}
use research_lab.Artifact.Sweep.Removed.{sweep-removes}

abbrev tokenizer : ArtifactPathReference
tokenizer = record {
  reference = record { kind = txt "tokenizer"; name = txt "strict"; version = txt "v1" };
  suffix = some (txt "vocab/merges.txt");
}

abbrev spelled : Text
spelled = txt "artifact:tokenizer/strict@v1/vocab/merges.txt"

parse_test : parse_artifact_path_reference spelled ≡ ok tokenizer
unfolding parse_artifact_path_reference strip_prefix split_once is_blank is_whitespace
parse_test = refl

parse_artifact_path_reference-eq-ok_iff_example :
    (parse_artifact_path_reference spelled ≡ ok tokenizer)
    ↔ (IsReference tokenizer × Spells tokenizer spelled)
parse_artifact_path_reference-eq-ok_iff_example =
    parse_artifact_path_reference-eq-ok_iff spelled tokenizer

-- A digest that tells apart what these tests use.
abbrev all_digests : List TreeEntry → Contents
all_digests [] = []
all_digests (e ∷ es) = e.sha256 ++ all_digests es

abbrev sha : Sha256
sha = record { sha256_bytes = λ c. b'a' ∷ b'b' ∷ b'-' ∷ c; to_vec = all_digests }

abbrev smooth : Environment
smooth = record { failure = λ n. none; remains = λ n. none; clock = λ n. 7; digest = sha }

abbrev full : RlabError
full = io (txt "x") (format "No space left on device" [])

-- The third operation fails, and half of the file is copied.
abbrev full_disk : Environment
full_disk = record {
  failure = λ n. if n == 2 then some full else none;
  remains = λ n. some (txt "h");
  clock = λ n. 7;
  digest = sha;
}

abbrev empty : World Files
empty = record { files = []; steps = 0 }

truncated_copy_example :
    ((ingest_file full_disk (txt "f") (txt "hello") empty).0 ≡ err full)
    × ((ingest_file smooth
          (txt "f")
          (txt "hello")
          (ingest_file full_disk (txt "f") (txt "hello") empty).1).0
        ≡ ok (
            stored_file (txt "f") (txt "hello") (txt "ab-hello") (txt "objects/blobs/ab/ab-hello")))
    × (Assoc.get
          (txt "objects/blobs/ab/ab-hello")
          (ingest_file smooth
            (txt "f")
            (txt "hello")
            (ingest_file full_disk (txt "f") (txt "hello") empty).1).1.files
        ≡ some (blob (txt "h")))
unfolding blob_path starts_with Assoc.get
truncated_copy_example =
    truncated_copy full_disk smooth (txt "f") (txt "hello") (txt "h")
      (txt "objects/blobs/ab/ab-hello") empty full refl refl refl refl refl refl refl (λ n. refl)

abbrev request : PromoteRequest
request = record {
  source = txt "tok";
  artifact_kind = txt "tokenizer";
  name = txt "strict";
  version = txt "v1";
  alias = some (txt "best");
}

abbrev source_folder : Source
source_folder = folder (
    record { relative = some (txt "b"); contents = txt "two"; mode = 0x1ed }
    ∷ record { relative = some (txt "a"); contents = txt "one"; mode = 0x1a4 }
    ∷ [])

abbrev promoted : ArtifactManifest
promoted = record {
  schema_version = 2;
  reference = record { kind = txt "tokenizer"; name = txt "strict"; version = txt "v1" };
  sha256 = txt "ab-ab-oneab-two";
  storage_type = ArtifactStorageType.directory;
  object_path = txt "objects/trees/ab-ab-oneab-two.json";
  source_path = txt "tok";
  size_bytes = 6;
  alias = some (txt "best");
  created_at = 7;
}

abbrev after : World Files
after = (promote smooth request source_folder empty).1

promote_test : promote smooth request source_folder empty ≡ (ok promoted, after)
unfolding promote ingest_path perform ask Assoc.insert Assoc.get blob_path tree_path manifest_path
    alias_path is_blank is_whitespace text_cmp starts_with
promote_test = refl

promote-IsBacked_example : IsBacked after.files
unfolding Assoc.get
promote-IsBacked_example =
    promote-IsBacked smooth request source_folder empty (record { backed = λ path x e. cc })

plain : IsPlain promoted
unfolding has_char starts_with
plain = record {
  kind_slash = refl;
  name_slash = refl;
  version_slash = refl;
  alias_relative = λ a e. ground arith;
}

describe-promote_example :
    describe_parts (txt "tokenizer") (txt "strict") (txt "v1") after.files ≡ ok promoted
describe-promote_example =
    describe-promote smooth request source_folder empty after promoted promote_test plain

describe-promote_alias_example :
    describe_parts (txt "tokenizer") (txt "strict") (txt "best") after.files ≡ ok promoted
unfolding promote ingest_path perform ask Assoc.insert Assoc.get blob_path tree_path manifest_path
    alias_path is_blank is_whitespace text_cmp starts_with trim
describe-promote_alias_example =
    describe-promote_alias smooth request source_folder empty after promoted promote_test plain
      (txt "best") refl refl refl refl

abbrev sweeping : SweepEnvironment
sweeping = record { failure = λ n. none; len = λ f. 1 }

-- An object of no manifest beside the promoted ones.
abbrev littered : World Files
littered = record {
  files = Assoc.insert (txt "objects/blobs/ab/ab-old") (blob (txt "old")) after.files;
  steps = 0;
}

abbrev one : TreeEntry
one = record {
  path = txt "a";
  sha256 = txt "ab-one";
  size_bytes = 3;
  mode = 0x1a4;
  executable = false;
}

abbrev two : TreeEntry
two = record {
  path = txt "b";
  sha256 = txt "ab-two";
  size_bytes = 3;
  mode = 0x1ed;
  executable = true;
}

sweep-keeps_example :
    Assoc.get
      (txt "objects/blobs/ab/ab-two")
      (sweep_unreachable_objects sweeping false [] littered).1.files
    ≡ Assoc.get (txt "objects/blobs/ab/ab-two") littered.files
unfolding promote ingest_path perform ask Assoc.insert Assoc.get blob_path tree_path manifest_path
    alias_path is_blank is_whitespace text_cmp starts_with compare_references objects_root text_eq
sweep-keeps_example =
    sweep-keeps sweeping false [] littered (promoted ∷ []) promoted (txt "objects/blobs/ab/ab-two")
      refl refl
      (entry (tree_of (one ∷ two ∷ []) (txt "ab-ab-oneab-two")) two refl refl (inr (inl refl)) refl)

abbrev reachable : List Text
reachable =
    txt "objects/blobs/ab/ab-two"
    ∷ txt "objects/blobs/ab/ab-one"
    ∷ txt "objects/trees/ab-ab-oneab-two.json"
    ∷ []

abbrev summary : GcSummary
summary = record {
  schema_version = 1;
  dry_run = false;
  removed_files = 1;
  removed_dirs = 0;
  removed_bytes = 1;
}

sweep-removes_example :
    Assoc.get
      (txt "objects/blobs/ab/ab-old")
      (sweep_unreachable_objects sweeping false [] littered).1.files
    ≡ none
unfolding promote ingest_path perform ask Assoc.insert Assoc.get Assoc.remove Assoc.keys blob_path
    tree_path manifest_path alias_path is_blank is_whitespace text_cmp starts_with
    compare_references objects_root text_eq reachable_objects sweep_unreachable_objects list
sweep-removes_example =
    sweep-removes sweeping [] littered (sweep_unreachable_objects sweeping false [] littered).1
      summary reachable (txt "objects/blobs/ab/ab-old")
      (refl, (refl, (refl, (refl, (refl, (refl, (tt, tt))))))) refl refl refl refl
