-- ===== src/Artifact/Layout.antt =====
-- crates/rlab-core/src/artifact: what the store keeps and at which paths, from manifest.rs and
-- store.rs. A path is a text, relative to the store's root; a file stands for what its contents
-- parse to. The digest of crates `sha2` and `hex` is a parameter.
use research_lab.Prelude.{
  ℕ, ◌+◌, ◌==◌, ltb, Bool, Option, none, some, List, [], ◌∷◌, ◌++◌, if◌then◌else◌, reverse,
}
use research_lab.Prelude.Text.{Text, txt, starts_with, is_whitespace}
use research_lab.Prelude.Outcome.{RlabResult, ok, err, artifact, format, ◌>>=◌}
use research_lab.Prelude.Assoc.{Assoc}
use research_lab.Artifact.Reference.{ArtifactReference}

abbrev pub artifact_schema_version : ℕ
artifact_schema_version = 2

abbrev pub tree_schema_version : ℕ
tree_schema_version = 1

pub data ArtifactStorageType : Type 0 where
  file directory : ArtifactStorageType

pub record ArtifactManifest : Type 0 where
  pub schema_version : ℕ
  pub reference : ArtifactReference
  pub sha256 : Text
  pub storage_type : ArtifactStorageType
  pub object_path : Text
  pub source_path : Text
  pub size_bytes : ℕ
  pub alias : Option Text
  pub created_at : ℕ

pub record TreeEntry : Type 0 where
  pub path : Text
  pub sha256 : Text
  pub size_bytes : ℕ
  pub mode : ℕ
  pub executable : Bool

pub record TreeManifest : Type 0 where
  pub schema_version : ℕ
  pub digest : Text
  pub entries : List TreeEntry

-- The bytes of a file.
abbrev pub Contents : Type 0
Contents = List ℕ

-- A file of the store: an object, a tree, a manifest, an alias, or the index with its rows.
pub data File : Type 0 where
  blob : Contents → File
  tree : TreeManifest → File
  manifest : ArtifactManifest → File
  text : Text → File
  rows : List ArtifactManifest → File

abbrev pub Files : Type 0
Files = Assoc File

-- `sha256_bytes`, and `serde_json::to_vec` of the entries of a tree.
pub record Sha256 : Type 0 where
  pub sha256_bytes : Contents → Text
  pub to_vec : List TreeEntry → Contents

abbrev pub tree_digest : Sha256 → List TreeEntry → Text
tree_digest h entries = h.sha256_bytes (h.to_vec entries)

-- `base.join(path)`: an absolute path replaces the base.
unfoldable pub join : Text → Text → Text
join base path = if starts_with (txt "/") path then path else base ++ b'/' ∷ path

-- The bytes of a character in UTF-8.
abbrev pub utf8_len : ℕ → ℕ
utf8_len c = if ltb c 0x80 then 1 else if ltb c 0x800 then 2 else if ltb c 0x10000 then 3 else 4

-- `digest.get(..2)` and `digest.get(2..)`: nothing if the second byte ends no character.
unfoldable pub split_prefix : Text → Option (Text × Text)
split_prefix [] = none
split_prefix (c ∷ []) = if utf8_len c == 2 then some (c ∷ [], []) else none
split_prefix (c ∷ d ∷ t) =
    if utf8_len c == 2
    then some (c ∷ [], d ∷ t)
    else if utf8_len c + utf8_len d == 2
    then some (c ∷ d ∷ [], t)
    else none

-- `DigestParts::parse`
unfoldable pub parse_digest : Text → RlabResult (Text × Text)
unfolding split_prefix
parse_digest digest = elim (split_prefix digest) [
  | none ↦ err (artifact (format "invalid digest prefix" []))
  | some (prefix, []) ↦ err (artifact (format "invalid digest body" []))
  | some (prefix, c ∷ body) ↦ ok (prefix, digest)
]

abbrev pub blobs_dir : Text
blobs_dir = txt "objects/blobs"

abbrev pub trees_dir : Text
trees_dir = txt "objects/trees"

abbrev pub index_file : Text
index_file = txt "index.jsonl"

unfoldable pub blob_path : Text → RlabResult Text
unfolding parse_digest join
blob_path digest = parse_digest digest >>= λ parts. ok (join (join blobs_dir parts.0) parts.1)

unfoldable pub tree_path : Text → Text
unfolding join
tree_path digest = join trees_dir (digest ++ txt ".json")

abbrev pub manifest_file_name : Text → Text → Text
manifest_file_name name version = name ++ b'@' ∷ (version ++ txt ".json")

unfoldable pub manifest_path : ArtifactReference → Text
unfolding join
manifest_path r = join r.kind (manifest_file_name r.name r.version)

unfoldable pub alias_path : ArtifactReference → Text → Text
unfolding join
alias_path r alias = join (join r.kind r.name) alias

-- The rows that an index file holds.
abbrev pub index_rows : Option File → List ArtifactManifest
index_rows (some (rows ms)) = ms
index_rows other = []

-- `value.trim()`
pub trim_start : Text → Text
unfolding is_whitespace
trim_start [] = []
trim_start (c ∷ t) = if is_whitespace c then trim_start t else c ∷ t

unfoldable pub trim : Text → Text
unfolding trim_start
trim t = reverse (trim_start (reverse (trim_start t)))
