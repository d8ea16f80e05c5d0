-- ===== src/Registry.antt =====
-- crates/rlab-core/src/registry: the kinds and names of registered objects, the records, and the
-- registry that holds them (record.rs, name.rs, validate.rs, conflict.rs).
pub mod Names
pub mod Insertion
pub mod Cache
mod Tests
use research_lab.Prelude.{
  ℕ, Bool, true, false, ◌&&◌, ◌||◌, not, ◌==◌, Option, none, some, List, [], ◌∷◌, ◌++◌, any, all,
  find, keep_if, if◌then◌else◌,
}
use research_lab.Prelude.Text.{Text, txt, text_eq, is_blank, is_whitespace, is_ascii_alphanumeric}
use research_lab.Prelude.Outcome.{
  RlabResult, ok, err, RlabError, registry, format, ◌>>=◌, ◌>>◌, ensure, check_all,
}
use research_lab.Prelude.Assoc.{Assoc}
use research_lab.Json.{Value}
use research_lab.Json.Equality.{value_eq}

abbrev pub registry_schema_version : ℕ
registry_schema_version = 1

-- `RegistryKind` holds the text of the kind.
abbrev pub RegistryKind : Type 0
RegistryKind = Text

unfoldable pub is_valid_kind_character : ℕ → Bool
unfolding is_ascii_alphanumeric
is_valid_kind_character c = is_ascii_alphanumeric c || c == b'_'

unfoldable pub validate_kind : Text → RlabResult (Unit {0})
validate_kind value =
    if text_eq value [] || not (all is_valid_kind_character value)
    then err (registry (format "invalid registry kind: {}" (value ∷ [])))
    else ok tt

-- The constants that `parse` returns for the known kinds hold the text that was parsed.
unfoldable pub parse_kind : Text → RlabResult RegistryKind
unfolding validate_kind
parse_kind value = validate_kind value >> ok value

abbrev pub runnable_kinds : List Text
runnable_kinds =
    txt "experiment" ∷ txt "study" ∷ txt "workflow" ∷ txt "benchmark" ∷ txt "evaluation" ∷ []

abbrev pub support_kinds : List Text
support_kinds =
    txt "adapter"
    ∷ txt "loader"
    ∷ txt "executor"
    ∷ txt "resolver"
    ∷ txt "exporter"
    ∷ txt "reporter"
    ∷ txt "notifier"
    ∷ []

unfoldable pub is_runnable : RegistryKind → Bool
is_runnable kind = any (text_eq kind) runnable_kinds

unfoldable pub is_support : RegistryKind → Bool
is_support kind = any (text_eq kind) support_kinds

unfoldable pub is_internal : RegistryKind → Bool
is_internal kind = false

unfoldable pub is_runtime_visible : RegistryKind → Bool
unfolding is_runnable is_support
is_runtime_visible kind = is_runnable kind || is_support kind

unfoldable pub category : RegistryKind → Text
unfolding is_runnable is_support is_internal
category kind =
    if is_runnable kind
    then txt "runnable"
    else if is_support kind
    then txt "support"
    else if is_internal kind
    then txt "internal"
    else txt "custom"

unfoldable pub is_valid_registry_name_character : ℕ → Bool
unfolding is_ascii_alphanumeric
is_valid_registry_name_character c =
    is_ascii_alphanumeric c || (c == b'.' || (c == b'_' || (c == b'-' || c == b':')))

unfoldable pub validate_registry_name : Text → RlabResult (Unit {0})
validate_registry_name value = do
  ensure (not (text_eq value [])) (registry (format "registry name cannot be empty" []))
  ensure (not (any is_whitespace value))
      (registry (format "registry name contains whitespace: {}" (value ∷ [])))
  ensure (all is_valid_registry_name_character value)
      (registry (format "registry name contains invalid characters: {}" (value ∷ [])))

-- `RegistryName::parse`
unfoldable pub parse_name : Text → RlabResult Text
unfolding validate_registry_name
parse_name value = validate_registry_name value >> ok value

-- The source is the list of its path's components, which is what two paths are compared by.
pub record RegistryRecord : Type 0 where
  pub schema_version : ℕ
  pub kind : RegistryKind
  pub name : Text
  pub version : Text
  pub module_name : Text
  pub qualname : Text
  pub source : List Text
  pub tags : List Text
  pub description : Text
  pub metadata : Assoc Value

texts_eq : List Text → List Text → Bool
texts_eq [] [] = true
texts_eq (a ∷ xs) (b ∷ ys) = text_eq a b && texts_eq xs ys
texts_eq xs ys = false

metadata_eq : Assoc Value → Assoc Value → Bool
metadata_eq [] [] = true
metadata_eq ((j, a) ∷ xs) ((k, b) ∷ ys) = text_eq j k && (value_eq a b && metadata_eq xs ys)
metadata_eq xs ys = false

-- The derived `==`.
unfoldable pub record_eq : RegistryRecord → RegistryRecord → Bool
unfolding texts_eq metadata_eq
record_eq a b =
    a.schema_version == b.schema_version
    && (text_eq a.kind b.kind
        && (text_eq a.name b.name
            && (text_eq a.version b.version
                && (text_eq a.module_name b.module_name
                    && (text_eq a.qualname b.qualname
                        && (texts_eq a.source b.source
                            && (texts_eq a.tags b.tags
                                && (text_eq a.description b.description
                                    && metadata_eq a.metadata b.metadata))))))))

unfoldable pub has_identity : RegistryKind → Text → RegistryRecord → Bool
has_identity kind name r = text_eq r.kind kind && text_eq r.name name

unfoldable pub validate_non_empty_field : Text → Text → Text → RlabResult (Unit {0})
validate_non_empty_field record_name field_name value =
    ensure (not (is_blank value))
      (registry (format "record {} has empty {}" (record_name ∷ field_name ∷ [])))

unfoldable pub validate_schema_version : ℕ → RlabResult (Unit {0})
validate_schema_version v =
    ensure (v == registry_schema_version)
      (registry (format "unsupported registry schema version" []))

unfoldable pub validate_registry_record : RegistryRecord → RlabResult (Unit {0})
unfolding validate_schema_version validate_kind validate_registry_name validate_non_empty_field
validate_registry_record r = do
  validate_schema_version r.schema_version
  validate_kind r.kind
  validate_registry_name r.name
  validate_non_empty_field r.name (txt "version") r.version
  validate_non_empty_field r.name (txt "module") r.module_name
  validate_non_empty_field r.name (txt "qualname") r.qualname

pub record Registry : Type 0 where
  pub schema_version : ℕ
  pub records : List RegistryRecord

-- `Registry::new`
abbrev pub empty : Registry
empty = record { schema_version = registry_schema_version; records = [] }

-- `find_ref`, which `find` and `find_existing` call.
unfoldable pub find_ref : Registry → RegistryKind → Text → Option RegistryRecord
find_ref g kind name = find (has_identity kind name) g.records

unfoldable pub records_by_kind_ref : Registry → RegistryKind → List RegistryRecord
records_by_kind_ref g kind = keep_if (λ r. text_eq r.kind kind) g.records

-- The match of `insert` on what is registered under the record's identity.
unfoldable pub insert_validated :
    Registry → RegistryRecord → Option RegistryRecord → RlabResult (Unit {0}) × Registry
insert_validated g r none = (ok tt, record g { records = g.records ++ r ∷ [] })
insert_validated g r (some existing) =
    if record_eq existing r
    then (ok tt, g)
    else (err (registry (format "duplicate registry record: {}:{}" (r.kind ∷ r.name ∷ []))), g)

-- What follows the record's validation in `insert`.
unfoldable pub insert_checked :
    Registry → RegistryRecord → RlabResult (Unit {0}) → RlabResult (Unit {0}) × Registry
unfolding insert_validated find_ref
insert_checked g r (err e) = (err e, g)
insert_checked g r (ok _) = insert_validated g r (find_ref g r.kind r.name)

-- `insert`, with the registry that it leaves.
unfoldable pub insert : Registry → RegistryRecord → RlabResult (Unit {0}) × Registry
unfolding insert_checked
insert g r = insert_checked g r (validate_registry_record r)

unfoldable pub validate : Registry → RlabResult (Unit {0})
unfolding validate_registry_record
validate g = do
  ensure (g.schema_version == registry_schema_version)
      (registry (format "unsupported registry schema version" []))
  check_all validate_registry_record g.records

-- The loop of `validate_no_conflicts`, with the keys seen so far.
unfoldable pub no_conflicts : List (Text × Text) → List RegistryRecord → RlabResult (Unit {0})
no_conflicts seen [] = ok tt
no_conflicts seen (r ∷ rs) = do
  ensure (not (any (λ key. text_eq key.0 r.kind && text_eq key.1 r.name) seen))
      (registry (format "duplicate registry key: {}:{}" (r.kind ∷ r.name ∷ [])))
  no_conflicts ((r.kind, r.name) ∷ seen) rs

unfoldable pub validate_no_conflicts : Registry → RlabResult (Unit {0})
unfolding no_conflicts
validate_no_conflicts g = no_conflicts [] g.records
