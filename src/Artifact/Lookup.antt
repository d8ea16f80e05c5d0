-- ===== src/Artifact/Lookup.antt =====
-- crates/rlab-core/src/artifact/store.rs: looking artifacts up by version or alias, and listing
-- them. A read fails where the file is not there or is another kind of file.
use research_lab.Prelude.{
  ◌&&◌, Bool, true, false, Option, none, some, List, [], ◌∷◌, if◌then◌else◌, Ordering, is_some,
  keep_if,
}
use research_lab.Prelude.Text.{Text, text_cmp, text_eq}
use research_lab.Prelude.Outcome.{
  RlabResult, ok, err, RlabError, artifact, serialization, io, format, ◌>>=◌,
}
use research_lab.Prelude.Assoc
use research_lab.Artifact.Reference.{ArtifactReference, parse_artifact_path_reference}
use research_lab.Artifact.Layout.{
  ArtifactManifest, File, manifest, text, rows, Files, manifest_path, alias_path, index_file, trim,
}

-- `fs::read_to_string(&path)` and what is parsed from it.
abbrev pub missing_file : Text → RlabError
missing_file path = io path (format "No such file or directory" [])

abbrev pub no_manifest : RlabError
no_manifest = serialization (format "not an artifact manifest" [])

abbrev pub is_empty : Text → Bool
is_empty [] = true
is_empty t = false

unfoldable pub read_alias : Text → Option File → RlabResult Text
read_alias path (some (text version)) =
    let trimmed = trim version in
    if is_empty trimmed
    then err (artifact (format "artifact alias is empty: {}" (path ∷ [])))
    else ok trimmed
read_alias path none = err (missing_file path)
read_alias path other = err no_manifest

unfoldable pub resolve_version : Text → Text → Text → Files → RlabResult Text
unfolding read_alias
resolve_version kind name version_or_alias files =
    let r : ArtifactReference = record { kind = kind; name = name; version = version_or_alias } in
    if is_some (Assoc.get (manifest_path r) files)
    then ok version_or_alias
    else read_alias (alias_path r version_or_alias)
        (Assoc.get (alias_path r version_or_alias) files)

unfoldable pub read_manifest : Text → Option File → RlabResult ArtifactManifest
read_manifest path (some (manifest m)) = ok m
read_manifest path none = err (missing_file path)
read_manifest path other = err no_manifest

unfoldable pub describe_parts : Text → Text → Text → Files → RlabResult ArtifactManifest
unfolding resolve_version read_manifest
describe_parts kind name version_or_alias files =
    resolve_version kind name version_or_alias files >>= λ version.
    let path = manifest_path (record { kind = kind; name = name; version = version }) in
    read_manifest path (Assoc.get path files)

unfoldable pub describe : Text → Files → RlabResult ArtifactManifest
unfolding describe_parts
describe value files = parse_artifact_path_reference value >>= λ parsed.
    let r = parsed.reference in describe_parts r.kind r.name r.version files

-- `list`: the rows of the index that are asked for, sorted by kind, name and version.
abbrev pub then_cmp : Ordering → Ordering → Ordering
then_cmp Ordering.eq o = o
then_cmp o p = o

unfoldable pub compare_references : ArtifactReference → ArtifactReference → Ordering
compare_references a b =
    then_cmp (text_cmp a.kind b.kind)
      (then_cmp (text_cmp a.name b.name) (text_cmp a.version b.version))

unfoldable pub insert_row : ArtifactManifest → List ArtifactManifest → List ArtifactManifest
unfolding compare_references
insert_row m [] = m ∷ []
insert_row m (x ∷ xs) =
    let rest = insert_row m xs in
    elim (compare_references m.reference x.reference) [ Ordering.gt ↦ x ∷ rest | _ ↦ m ∷ x ∷ xs ]

unfoldable pub sort_rows : List ArtifactManifest → List ArtifactManifest
unfolding insert_row
sort_rows [] = []
sort_rows (m ∷ ms) = insert_row m (sort_rows ms)

abbrev pub asked : Option Text → Text → Bool
asked none actual = true
asked (some wanted) actual = text_eq wanted actual

abbrev pub alias_asked : Option Text → Option Text → Bool
alias_asked none actual = true
alias_asked (some wanted) none = false
alias_asked (some wanted) (some actual) = text_eq actual wanted

unfoldable pub list :
    Option Text → Option Text → Option Text → Files → RlabResult (List ArtifactManifest)
unfolding sort_rows
list kind name alias files = elim (Assoc.get index_file files) [
  | none ↦ ok []
  | some (rows ms) ↦ ok (
      sort_rows (
        keep_if
          (λ m.
            asked kind m.reference.kind
            && (asked name m.reference.name && alias_asked alias m.alias))
          ms))
  | some other ↦ err no_manifest
]
