-- ===== src/Registry/Cache/Tests.antt =====
-- A registry of one source, saved and asked for again after the source was deleted.
use research_lab.Prelude.{ℕ, none, some, List, [], ◌∷◌, All, ◌≡◌, ◌↔◌, refl}
use research_lab.Prelude.Text.{Text, txt, text_eq}
use research_lab.Prelude.Outcome.{ok}
use research_lab.Prelude.Assoc
use research_lab.Registry.{Registry}
use research_lab.Registry.Cache.{
  RegistryCacheKey, RegistryCache, Sources, from_registry, hashes_from, hash_bytes, hash_strings,
  load_registry_cache, is_valid_for, metadata_matches, sources_match,
}
use research_lab.Registry.Cache.Saved.{Agree, IsUnchanged, saved-used_iff}

abbrev digest : List ℕ → Text
digest bytes = bytes

abbrev before : Sources
before path = some (ok (1 ∷ 2 ∷ []))

abbrev deleted : Sources
deleted path = none

abbrev key : RegistryCacheKey
key = record {
  rlab_version = txt "1";
  config_hash = txt "c";
  modules = [];
  source_paths = txt "lab.py" ∷ [];
  python_executable = txt "python3";
  python_version = txt "3";
  strict_policy_hash = txt "s";
}

abbrev later_key : RegistryCacheKey
later_key = record key { source_paths = [] }

abbrev lab : Registry
lab = record { schema_version = 1; records = [] }

abbrev cache : RegistryCache
cache = record {
  schema_version = 1;
  rlab_version = txt "1";
  config_hash = txt "c";
  module_hash = [];
  source_hashes = (txt "lab.py", 1 ∷ 2 ∷ []) ∷ [];
  python_executable = txt "python3";
  python_version = txt "3";
  strict_policy_hash = txt "s";
  records = [];
}

saves : from_registry digest before lab key ≡ ok cache
unfolding from_registry hashes_from hash_bytes hash_strings Assoc.insert
saves = refl

stale_test : load_registry_cache digest (some (ok cache)) deleted later_key ≡ ok (some lab)
unfolding load_registry_cache is_valid_for metadata_matches sources_match hash_strings text_eq
stale_test = refl

saved-used_iff_example :
    (load_registry_cache digest (some (ok cache)) deleted later_key ≡ ok (some lab)) ↔ (
      Agree digest key later_key
      × All (IsUnchanged digest before deleted key) later_key.source_paths
      × (lab ≡ lab))
saved-used_iff_example = saved-used_iff digest before deleted lab lab key later_key cache saves
