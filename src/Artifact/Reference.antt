-- ===== src/Artifact/Reference.antt =====
-- crates/rlab-core/src/artifact/manifest.rs: names and references of artifacts. A suffix, which is
-- a `PathBuf`, is its text.
pub mod Parts
pub mod Spelling
use research_lab.Prelude.{ℕ, ◌==◌, Option, none, some, [], ◌∷◌, if◌then◌else◌}
use research_lab.Prelude.Text.{Text, txt, is_blank, split_once, starts_with}
use research_lab.Prelude.Outcome.{RlabResult, ok, err, RlabError, reference, format, ◌>>=◌}

pub record ArtifactReference : Type 0 where
  pub kind : Text
  pub name : Text
  pub version : Text

pub record ArtifactPathReference : Type 0 where
  pub reference : ArtifactReference
  pub suffix : Option Text

-- `value.splitn(2, c)`: the first piece, and the rest if there is a separator.
abbrev pub pieces : Text → Option (Text × Text) → Text × Option Text
pieces t none = (t, none)
pieces t (some (a, b)) = (a, some b)

abbrev pub splitn_2 : ℕ → Text → Text × Option Text
splitn_2 c t = pieces t (split_once c t)

-- `value.strip_prefix(prefix)`
unfoldable pub strip_prefix : Text → Text → Option Text
strip_prefix [] t = some t
strip_prefix (c ∷ p) [] = none
strip_prefix (c ∷ p) (d ∷ t) = let rest = strip_prefix p t in if c == d then rest else none

-- `Some(text) if !text.trim().is_empty() => …, _ => Err(e)`
pub require : Option Text → RlabError → RlabResult Text
require none e = err e
require (some t) e = if is_blank t then err e else ok t

unfoldable pub parse_artifact_name : Text → RlabResult (Text × Text)
unfolding require
parse_artifact_name value = do
  let split = splitn_2 b':' value
  kind ← require (some split.0) (reference (format "invalid artifact name: {}" (value ∷ [])))
  name ← require split.1 (reference (format "artifact name must be kind:name: {}" (value ∷ [])))
  ok (kind, name)

-- The version, and what follows a slash.
pub parse_version : Text → Text → RlabResult (Text × Option Text)
parse_version value t = elim (split_once b'/' t) [
  | none ↦
      if is_blank t
      then err (reference (format "invalid artifact version: {}" (value ∷ [])))
      else ok (t, none)
  | some (version, suffix) ↦
      if is_blank version
      then err (reference (format "invalid artifact reference suffix: {}" (value ∷ [])))
      else if is_blank suffix
      then err (reference (format "invalid artifact reference suffix: {}" (value ∷ [])))
      else ok (version, some suffix)
]

abbrev pub scheme : Text
scheme = txt "artifact:"

abbrev pub unwrap_or : Option Text → Text → Text
unwrap_or none d = d
unwrap_or (some t) d = t

abbrev pub invalid : Text → RlabError
invalid value = reference (format "invalid artifact reference: {}" (value ∷ []))

-- The kind and the name, before the version.
pub parse_place : Text → Text → RlabResult (Text × Text)
unfolding require
parse_place value left = do
  let kind_split = splitn_2 b'/' left
  kind ← require (some kind_split.0) (invalid value)
  name ←
      require kind_split.1 (
        reference (format "artifact reference must be artifact:kind/name@version: {}" (value ∷ [])))
  ok (kind, name)

-- What stands before the version, and the version with what follows it.
pub parse_halves : Text → Text → Text → RlabResult ArtifactPathReference
unfolding require parse_version parse_place
parse_halves value left version_and_suffix = do
  left' ← require (some left) (invalid value)
  versioned ← parse_version value version_and_suffix
  placed ← parse_place value left'
  ok (record {
    reference = record { kind = placed.0; name = placed.1; version = versioned.0 };
    suffix = versioned.1;
  })

-- The value after the scheme.
pub parse_parts : Text → Text → RlabResult ArtifactPathReference
unfolding parse_halves
parse_parts value without_scheme =
    let version_split = splitn_2 b'@' without_scheme in
    parse_halves value version_split.0 (unwrap_or version_split.1 (txt "1"))

unfoldable pub parse_artifact_path_reference : Text → RlabResult ArtifactPathReference
unfolding parse_parts
parse_artifact_path_reference value =
    parse_parts value (unwrap_or (strip_prefix scheme value) value)

unfoldable pub parse_artifact_reference : Text → RlabResult ArtifactReference
unfolding parse_artifact_path_reference
parse_artifact_reference value = parse_artifact_path_reference value >>= λ p. ok p.reference
