-- ===== src/Registry/Cache.antt =====
-- crates/rlab-core/src/registry/schema.rs: the cache of a discovered registry, and when it may be used.
-- The digest of bytes is a parameter; the files are what their bytes are, if they can be read. A path
-- is the text of its components joined by single slashes, with no `.` among them: two of these
-- are the same text exactly if they have the same components, which is how the source compares
-- its paths.
pub mod Hashes
pub mod Saved
mod Tests
use research_lab.Prelude.{
  ℕ, Bool, true, false, ◌&&◌, ◌==◌, Option, none, some, List, [], ◌∷◌, ◌++◌, if◌then◌else◌,
}
use research_lab.Prelude.Text.{Text, txt, text_eq, as_bytes}
use research_lab.Prelude.Outcome.{RlabResult, ok, err, io, format, ◌>>=◌}
use research_lab.Prelude.Assoc
use research_lab.Prelude.Assoc.{Assoc}
use research_lab.Registry.{Registry, RegistryRecord, registry_schema_version}

pub record RegistryCacheKey : Type 0 where
  pub rlab_version : Text
  pub config_hash : Text
  pub modules : List Text
  pub source_paths : List Text
  pub python_executable : Text
  pub python_version : Text
  pub strict_policy_hash : Text

pub record RegistryCache : Type 0 where
  pub schema_version : ℕ
  pub rlab_version : Text
  pub config_hash : Text
  pub module_hash : Text
  pub source_hashes : Assoc Text
  pub python_executable : Text
  pub python_version : Text
  pub strict_policy_hash : Text
  pub records : List RegistryRecord

-- `none` where `is_file` says no.
abbrev pub Sources : Type 0
Sources = Text → Option (RlabResult (List ℕ))

separated : List Text → List ℕ
separated [] = []
separated (value ∷ values) = as_bytes value ++ 0 ∷ separated values

module _ (digest : List ℕ → Text) where
  unfoldable pub hash_strings : List Text → Text
  unfolding separated
  hash_strings values = digest (separated values)

  -- `hash_file`, from the outcome of reading the file.
  unfoldable pub hash_bytes : RlabResult (List ℕ) → RlabResult Text
  hash_bytes bytes = bytes >>= λ b. ok (digest b)

  -- The loop of `source_hashes`, with the hashes so far.
  pub hashes_from : Sources → List Text → Assoc Text → RlabResult (Assoc Text)
  unfolding hash_bytes
  hashes_from sources [] hashes = ok hashes
  hashes_from sources (path ∷ paths) hashes = elim (sources path) [
    | none ↦ hashes_from sources paths hashes
    | some bytes ↦ hash_bytes bytes >>= λ h. hashes_from sources paths (Assoc.insert path h hashes)
  ]

  -- `cached_hashes.get(path)` against the current hash.
  abbrev pub same_hash : Option Text → Text → Bool
  same_hash none current = false
  same_hash (some cached) current = text_eq cached current

  unfoldable pub sources_match : Assoc Text → Sources → List Text → RlabResult Bool
  unfolding hash_bytes
  sources_match cached sources [] = ok true
  sources_match cached sources (path ∷ paths) =
      let rest = sources_match cached sources paths in
      elim (sources path) [
        | none ↦ rest
        | some bytes ↦ hash_bytes bytes >>= λ current.
            if same_hash (Assoc.get path cached) current then rest else ok false
      ]

  unfoldable pub from_registry : Sources → Registry → RegistryCacheKey → RlabResult RegistryCache
  unfolding hash_strings hashes_from
  from_registry sources registry key = do
    hashes ← hashes_from sources key.source_paths []
    ok (record {
      schema_version = registry_schema_version;
      rlab_version = key.rlab_version;
      config_hash = key.config_hash;
      module_hash = hash_strings key.modules;
      source_hashes = hashes;
      python_executable = key.python_executable;
      python_version = key.python_version;
      strict_policy_hash = key.strict_policy_hash;
      records = registry.records;
    })

  unfoldable pub metadata_matches : RegistryCache → RegistryCacheKey → Bool
  unfolding hash_strings
  metadata_matches cache key =
      text_eq cache.rlab_version key.rlab_version
      && (text_eq cache.config_hash key.config_hash
          && (text_eq cache.module_hash (hash_strings key.modules)
              && (text_eq cache.python_executable key.python_executable
                  && (text_eq cache.python_version key.python_version
                      && text_eq cache.strict_policy_hash key.strict_policy_hash))))

  unfoldable pub is_valid_for : RegistryCache → Sources → RegistryCacheKey → RlabResult Bool
  unfolding metadata_matches sources_match
  is_valid_for cache sources key =
      if (cache.schema_version == registry_schema_version) && metadata_matches cache key
      then sources_match cache.source_hashes sources key.source_paths
      else ok false

  abbrev pub into_registry : RegistryCache → Registry
  into_registry cache = record { schema_version = registry_schema_version; records = cache.records }

  abbrev pub used_if : RegistryCache → Bool → Option Registry
  used_if cache true = some (into_registry cache)
  used_if cache false = none

  -- `none` is a cache that is not there; else its file is read and parsed.
  unfoldable pub load_registry_cache :
      Option (RlabResult RegistryCache) → Sources → RegistryCacheKey → RlabResult (Option Registry)
  unfolding is_valid_for
  load_registry_cache none sources key = ok none
  load_registry_cache (some file) sources key = do
    cache ← file
    valid ← is_valid_for cache sources key
    ok (used_if cache valid)
