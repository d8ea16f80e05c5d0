-- ===== src/Artifact/Store/Plain.antt =====
-- That the places of manifests, aliases and the index do not meet.
use research_lab.Prelude.{
  ◌≡◌, ◌≢◌, refl, sym, ap, ◌∙◌, false, some, [], ◌∷◌, ◌++◌, append_assoc, arith,
}
use research_lab.Prelude.Text.{Text, txt, has_char, starts_with}
use research_lab.Prelude.Splitting.{join_injective, has_char-append}
use research_lab.Artifact.Layout.{
  ArtifactManifest, join, index_file, manifest_file_name, manifest_path, alias_path,
}

-- Names that are single components of a path.
pub record IsPlain (m : ArtifactManifest) : Type 0 where
  pub kind_slash : has_char b'/' m.reference.kind ≡ false
  pub name_slash : has_char b'/' m.reference.name ≡ false
  pub version_slash : has_char b'/' m.reference.version ≡ false
  pub alias_relative : (a : Text) → m.alias ≡ some a → starts_with (txt "/") a ≡ false

pub relative : (t : Text) → has_char b'/' t ≡ false → starts_with (txt "/") t ≡ false
unfolding has_char starts_with
relative [] h = refl
relative (c ∷ t) h = ground arith

pub join-relative :
    (base t : Text) → starts_with (txt "/") t ≡ false → join base t ≡ base ++ b'/' ∷ t
unfolding join
join-relative base t h = rw h refl

pub file_name_slash :
    (m : ArtifactManifest)
    → IsPlain m
    → has_char b'/' (manifest_file_name m.reference.name m.reference.version) ≡ false
unfolding has_char
file_name_slash m p = ground (
  arith,
  p.name_slash,
  p.version_slash,
  has_char-append b'/' m.reference.name (b'@' ∷ (m.reference.version ++ txt ".json")),
  has_char-append b'/' m.reference.version (txt ".json"),
)

pub manifest_path-IsPlain :
    (m : ArtifactManifest)
    → IsPlain m
    → manifest_path m.reference
      ≡ m.reference.kind ++ b'/' ∷ manifest_file_name m.reference.name m.reference.version
unfolding manifest_path
manifest_path-IsPlain m p = join-relative _ _ (relative _ (file_name_slash m p))

pub manifest_path-ne-index_file :
    (m : ArtifactManifest) → IsPlain m → manifest_path m.reference ≢ index_file
unfolding has_char
manifest_path-ne-index_file m p e =
    no_slash (ap (has_char b'/') (sym (manifest_path-IsPlain m p) ∙ e))
  where
    no_slash :
        has_char b'/'
            (m.reference.kind ++ b'/' ∷ manifest_file_name m.reference.name m.reference.version)
          ≡ has_char b'/' index_file
        → ⊥
    no_slash e = ground (
      arith,
      has_char-append b'/' m.reference.kind
          (b'/' ∷ manifest_file_name m.reference.name m.reference.version),
    )

pub alias_path-IsPlain :
    (m : ArtifactManifest) (a : Text)
    → IsPlain m
    → m.alias ≡ some a
    → alias_path m.reference a ≡ m.reference.kind ++ b'/' ∷ (m.reference.name ++ b'/' ∷ a)
unfolding alias_path
alias_path-IsPlain m a p h =
    join-relative _ _ (p.alias_relative a h)
    ∙ (ap (λ t. t ++ b'/' ∷ a)
          (join-relative m.reference.kind m.reference.name (relative _ p.name_slash))
        ∙ append_assoc m.reference.kind (b'/' ∷ m.reference.name) (b'/' ∷ a))

pub manifest_path-ne-alias_path :
    (m : ArtifactManifest) (a : Text)
    → IsPlain m
    → m.alias ≡ some a
    → manifest_path m.reference ≢ alias_path m.reference a
unfolding has_char
manifest_path-ne-alias_path m a p h e =
    let same = sym (manifest_path-IsPlain m p) ∙ (e ∙ alias_path-IsPlain m a p h) in
    let (_, names) = join_injective b'/' _ _ _ _ p.kind_slash p.kind_slash same in
    slash (sym (file_name_slash m p) ∙ ap (has_char b'/') names)
  where
    slash : false ≡ has_char b'/' (m.reference.name ++ b'/' ∷ a) → ⊥
    slash e = ground (arith, has_char-append b'/' m.reference.name (b'/' ∷ a))
