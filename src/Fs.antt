-- ===== src/Fs.antt =====
-- crates/rlab-core/src/fs/safety.rs, on paths of a Unix system. The working directory and the
-- resolution of links are parameters.
pub mod Inside
mod Tests
use research_lab.Prelude.{
  ℕ, Bool, true, false, ◌&&◌, not, Option, none, some, List, [], ◌∷◌, ◌++◌, any, is_some,
  if◌then◌else◌,
}
use research_lab.Prelude.Text.{Text, txt, text_eq, split, starts_with}
use research_lab.Prelude.Outcome.{RlabResult, ok, err, validation, format, ◌>>=◌, ◌>>◌, ensure}
use research_lab.Artifact.Layout.{join}

-- `std::path::Component`
pub data Component : Type 0 where
  root_dir cur_dir parent_dir : Component
  normal : Text → Component

-- A piece between slashes; the empty ones and `.` leave nothing.
unfoldable pub piece : Text → List Component
piece t =
    if text_eq t []
    then []
    else if text_eq t (txt ".")
    then []
    else if text_eq t (txt "..")
    then parent_dir ∷ []
    else normal t ∷ []

unfoldable pub pieces : List Text → List Component
unfolding piece
pieces [] = []
pieces (t ∷ ts) = piece t ++ pieces ts

-- A path that starts with `/` has the root first; of a relative path a `.` counts at the front.
first_component : List Text → List Component
first_component [] = []
first_component (t ∷ ts) = if text_eq t (txt ".") then cur_dir ∷ [] else []

-- `path.components()`
unfoldable pub components : Text → List Component
unfolding pieces first_component
components t =
    (if starts_with (txt "/") t then root_dir ∷ [] else first_component (split b'/' t))
    ++ pieces (split b'/' t)

unfoldable pub is_absolute : Text → Bool
is_absolute t = starts_with (txt "/") t

abbrev pub is_parent_component : Component → Bool
is_parent_component parent_dir = true
is_parent_component c = false

component_eq : Component → Component → Bool
component_eq root_dir root_dir = true
component_eq cur_dir cur_dir = true
component_eq parent_dir parent_dir = true
component_eq (normal a) (normal b) = text_eq a b
component_eq a b = false

-- `path.starts_with(base)` goes by whole components: what is left of the path.
unfoldable pub strip_components : List Component → List Component → Option (List Component)
unfolding component_eq
strip_components [] path = some path
strip_components (b ∷ base) [] = none
strip_components (b ∷ base) (c ∷ path) =
    let rest = strip_components base path in if component_eq b c then rest else none

unfoldable pub absolute_without_canonicalizing : RlabResult Text → Text → RlabResult Text
unfolding is_absolute join
absolute_without_canonicalizing cwd path =
    if is_absolute path then ok path else cwd >>= λ dir. ok (join dir path)

-- `root_abs.join(candidate)`, or the candidate if it is absolute.
unfoldable pub joined : Text → Text → Text
unfolding is_absolute join
joined root_abs candidate = if is_absolute candidate then candidate else join root_abs candidate

unfoldable pub ensure_child_path : RlabResult Text → Text → Text → RlabResult Text
unfolding components absolute_without_canonicalizing joined strip_components
ensure_child_path cwd root candidate = do
  ensure (not (any is_parent_component (components candidate)))
      (validation (format "path contains parent traversal: {}" (candidate ∷ [])))
  root_abs ← absolute_without_canonicalizing cwd root
  ensure (is_some (strip_components (components root_abs) (components (joined root_abs candidate))))
      (validation (format "path escapes project root: {}" (candidate ∷ [])))
  ok (joined root_abs candidate)

unfoldable pub ensure_existing_child_path :
    (Text → RlabResult Text) → RlabResult Text → Text → Text → RlabResult Text
unfolding ensure_child_path components strip_components
ensure_existing_child_path canonicalize cwd root candidate = do
  root_abs ← canonicalize root
  path ← ensure_child_path cwd root_abs candidate
  canonical ← canonicalize path
  ensure (is_some (strip_components (components root_abs) (components canonical)))
      (validation (format "path escapes project root after canonicalization: {}" (candidate ∷ [])))
  ok canonical
