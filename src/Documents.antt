-- ===== src/Documents.antt =====
-- crates/rlab-core/src/config/documents: inheritance of configuration documents, deep merging,
-- dotted overrides and differences. A folder is what its files parse to: reading a file and
-- parsing its YAML are not this program's, so each file stands for the outcome of both.
pub mod Diff
pub mod Merge
pub mod Override
pub mod Shape
pub mod Inherit
mod Tests
use research_lab.Prelude.{
  ℕ, zero, suc, Bool, true, false, ◌&&◌, ◌||◌, not, Option, none, some, List, [], ◌∷◌, ◌++◌, any,
  if◌then◌else◌, is_some, ◌==◌,
}
use research_lab.Prelude.Text.{Text, txt, text_eq, has_char, split, starts_with}
use research_lab.Prelude.Outcome.{
  RlabResult, ok, err, RlabError, config, format, ◌>>=◌, ◌>>◌, ensure, ok_or,
}
use research_lab.Prelude.Assoc
use research_lab.Prelude.Assoc.{Assoc}
use research_lab.Json.{
  Value, null, string, object, Fields, end, field, get_field, insert_field, remove_field, as_object,
  as_str, is_object,
}

-- The value that the `None` arm of `base.remove(&key)` puts in place of a missing one.
abbrev pub or_null : Option Value → Value
or_null none = null
or_null (some v) = v

unfoldable mutual
  pub merge : Value → Value → Value
  merge (object base) (object over) = object (merge_fields base over)
  merge base over = over

  pub merge_fields : Fields → Fields → Fields
  merge_fields base end = base
  merge_fields base (field k v over) =
      merge_fields (insert_field k (merge (or_null (get_field k base)) v) (remove_field k base))
        over

invalid_path : Text → RlabError
invalid_path path = config (format "invalid config path: {}" (path ∷ []))

pub descend_path : Value → Text → Text → RlabResult Value
descend_path (object m) path part = elim (get_field part m) [
  | some (object child) ↦ ok (object child)
  | _ ↦ err (config (format "unknown or non-mapping config path: {}" (path ∷ [])))
]
descend_path target path part =
    err (config (format "unknown or non-mapping config path: {}" (path ∷ [])))

pub insert_path_value : Value → Text → Text → Value → RlabResult Value
insert_path_value (object m) path key value = ok (object (insert_field key value m))
insert_path_value target path key value =
    err (config (format "config root must be a mapping: {}" (path ∷ [])))

-- What the mutation of a child leaves in its parent.
put_child : Value → Text → Value → Value
put_child (object m) key child = object (insert_field key child m)
put_child target key child = target

-- The loop of `set_path` over the parts of the path.
pub set_parts : Text → List Text → Value → Value → RlabResult Value
unfolding descend_path insert_path_value put_child
set_parts path [] value target = err (invalid_path path)
set_parts path (part ∷ []) value target =
    if text_eq part [] then err (invalid_path path) else insert_path_value target path part value
set_parts path (part ∷ next ∷ parts) value target =
    if text_eq part [] then err (invalid_path path) else do
      child ← descend_path target path part
      child' ← set_parts path (next ∷ parts) value child
      ok (put_child target part child')

unfoldable pub set_path : Value → Text → Value → RlabResult Value
unfolding set_parts invalid_path
set_path root path value =
    if text_eq path [] then err (invalid_path path) else set_parts path (split b'.' path) value root

-- A failure leaves the overrides before it applied; every caller drops the value then.
unfoldable pub apply_dotted_overrides : Value → Assoc Value → Bool → RlabResult Value
unfolding set_path
apply_dotted_overrides value [] explicit = ok value
apply_dotted_overrides value ((path, v) ∷ rest) explicit =
    if explicit && not (has_char b'.' path)
    then err (config (format "override {} must use an explicit dotted path" (path ∷ [])))
    else do value' ← set_path value path v; apply_dotted_overrides value' rest explicit

-- The files of the configuration folder that have the wanted suffix, by document name.
abbrev pub Folder : Type 0
Folder = Assoc (RlabResult Value)

pub validate_document_name : Text → RlabResult (Unit {0})
validate_document_name name =
    ensure
      (not (text_eq name [])
        && (not (starts_with (b'.' ∷ []) name) && not (has_char b'/' name || has_char b'\\' name)))
      (config (format "invalid config name: {}" (name ∷ [])))

-- `document_path`, with the file that it finds.
pub find_document : Folder → Text → RlabResult (RlabResult Value)
unfolding validate_document_name
find_document folder name = do
  validate_document_name name
  ok_or (Assoc.get name folder) (config (format "config not found: {}" (name ∷ [])))

pub validate_not_cyclic : Text → List Text → RlabResult (Unit {0})
validate_not_cyclic name stack =
    ensure (not (any (λ value. text_eq value name) stack))
      (config (format "cyclic config inheritance: {}" (stack ++ name ∷ [])))

-- The parent that a document names, and the document without the entry.
pub remove_parent : Text → Value → RlabResult (Value × Option Text)
remove_parent path (object m) = elim (get_field (txt "extends") m) [
  | none ↦ ok (object m, none)
  | some (string []) ↦
      err (config (format "config extends must be a non-empty string: {}" (path ∷ [])))
  | some (string (c ∷ s)) ↦ ok (object (remove_field (txt "extends") m), some (c ∷ s))
  | some _ ↦ err (config (format "config extends must be a non-empty string: {}" (path ∷ [])))
]
remove_parent path v = err (config (format "config document must be a mapping: {}" (path ∷ [])))

-- `load` up to its recursive call.
pub load_own : Folder → Text → List Text → RlabResult (Value × Option Text)
unfolding find_document validate_not_cyclic remove_parent
load_own folder name stack = do
  validate_not_cyclic name stack
  file ← find_document folder name
  current ← file
  remove_parent name current

abbrev pub merge_result : Value → RlabResult Value → RlabResult Value
merge_result current base = base >>= λ b. ok (merge b current)

-- `load`: `none` stands for a recursion deeper than the fuel.
pub load : ℕ → Folder → Text → List Text → Option (RlabResult Value)
unfolding load_own
load zero folder name stack = none
load (suc fuel) folder name stack = elim (load_own folder name stack) [
  | err e ↦ some (err e)
  | ok (current, none) ↦ some (ok current)
  | ok (current, some parent) ↦ elim (load fuel folder parent (stack ++ name ∷ [])) [
    | none ↦ none
    | some base ↦ some (merge_result current base)
  ]
]
