-- ===== src/Artifact/Store/Promoted.antt =====
-- What a promotion that returns leaves for lookups.
use research_lab.Prelude.{
  ◌≡◌, refl, sym, ap, subst, ◌∙◌, ◌||◌, false, Option, none, some, [], ◌∷◌, arith, if◌then◌else◌,
  is_some,
}
use research_lab.Prelude.Text.{Text, is_blank}
use research_lab.Prelude.Outcome.{ok, err, RlabResult, ◌>>=◌, artifact, format}
use research_lab.Prelude.Assoc
use research_lab.Prelude.Assoc.{get-insert_self, get-insert_ne}
use research_lab.Prelude.Effect.{World, pure, raise, ask, ◌>>◌}
use research_lab.Prelude.Effect.Triple.{
  Triple, Post, Triple-pure, Triple-raise, Triple-if, Triple-bind, Triple-perform, Triple-ask,
  Triple-weaken,
}
use research_lab.Artifact.Reference.{ArtifactReference}
use research_lab.Artifact.Layout.{
  ArtifactManifest, File, manifest, text, Files, manifest_path, alias_path, trim,
}
use research_lab.Artifact.Store.{
  PromoteRequest, Source, Environment, put, touch, write, ingest_path, write_manifest, append_index,
  write_alias, manifest_of, publish, promote, artifact_error,
}
use research_lab.Artifact.Store.Held.{Grows}
use research_lab.Artifact.Store.Growth.{ingest_path-Triple}
use research_lab.Artifact.Lookup.{
  resolve_version, read_alias, read_manifest, describe_parts, is_empty,
}
use research_lab.Artifact.Store.Plain.{
  IsPlain, manifest_path-ne-index_file, manifest_path-ne-alias_path,
}

-- The manifest and the alias are written.
abbrev pub Published : ArtifactManifest → Files → Type 0
Published m f =
    (Assoc.get (manifest_path m.reference) f ≡ some (manifest m))
    × ((a : Text)
        → m.alias ≡ some a
        → Assoc.get (alias_path m.reference a) f ≡ some (text m.reference.version))

some-injective : {a b : Text} → some a ≡ some b → a ≡ b
some-injective e = cc

module _ (env : Environment) where
  write_alias-Triple :
      (m : ArtifactManifest)
      → Triple
          (λ f. IsPlain m → Assoc.get (manifest_path m.reference) f ≡ some (manifest m))
          (write_alias env m)
          (λ _ f. IsPlain m → Published m f)
          (λ _. Unit {0})
  unfolding write_alias
  write_alias-Triple m = by_alias m.alias refl
    where
      by_alias :
          (o : Option Text)
          → m.alias ≡ o
          → Triple
              (λ f. IsPlain m → Assoc.get (manifest_path m.reference) f ≡ some (manifest m))
              (elim o [
                | none ↦ pure tt
                | some alias ↦
                    (touch env
                      >> write env (alias_path m.reference alias) (text m.reference.version))
              ])
              (λ _ f. IsPlain m → Published m f)
              (λ _. Unit {0})
      by_alias none none_given = Triple-pure tt (λ f h p. (h p, λ a e. cc))
      by_alias (some alias) given =
          let link = text m.reference.version in
          Triple-bind
            {R = λ _ f. IsPlain m → Assoc.get (manifest_path m.reference) f ≡ some (manifest m)}
            (touch env) _ (Triple-perform env.failure _ (λ f h. h) (λ f h. tt))
            (λ _.
              Triple-perform env.failure _
                (λ f h p. (
                  get-insert_ne _ _ link f (manifest_path-ne-alias_path m alias p given) ∙ h p,
                  λ a e.
                      subst
                        (λ a.
                          Assoc.get (alias_path m.reference a)
                            (put (alias_path m.reference alias) link f)
                          ≡ some link)
                        (some-injective (sym given ∙ e))
                        (get-insert_self (alias_path m.reference alias) link f),
                ))
                (λ f h. tt))

  publish-Triple :
      (m : ArtifactManifest)
      → Triple (λ _. Unit {0}) (publish env m) (λ n f. IsPlain n → Published n f) (λ _. Unit {0})
  unfolding publish write_manifest append_index
  publish-Triple m =
      Triple-bind
        {R = λ _ f. IsPlain m → Assoc.get (manifest_path m.reference) f ≡ some (manifest m)}
        (write_manifest env m) _
        (Triple-bind {R = λ _ _. Unit {0}} (touch env) _
          (Triple-perform env.failure _ (λ f u. tt) (λ f u. tt))
          (λ _. Triple-perform env.failure _ (λ f u p. get-insert_self _ _ f) (λ f u. tt)))
        (λ _.
          Triple-bind
            {R = λ _ f. IsPlain m → Assoc.get (manifest_path m.reference) f ≡ some (manifest m)}
            (append_index env m) _
            (Triple-perform env.failure _
              (λ f h p. get-insert_ne _ _ _ f (manifest_path-ne-index_file m p) ∙ h p) (λ f h. tt))
            (λ _. Triple-bind _ _ (write_alias-Triple m) (λ _. Triple-pure m (λ f h. h))))

  promote-Published :
      (request : PromoteRequest) (source : Source)
      → Triple
          (λ _. Unit {0})
          (promote env request source)
          (λ m f. IsPlain m → Published m f)
          (λ _. Unit {0})
  unfolding promote
  promote-Published request source =
      Triple-if (is_blank request.artifact_kind || is_blank request.name) (raise artifact_error) _
        (λ _. Triple-raise artifact_error (λ f b. b))
        (λ _.
          Triple-bind {R = λ _ _. Unit {0}} (ingest_path env request.source source) _
            (Triple-weaken _ (λ f u. u) (λ s f q. tt) (λ f u. u)
              (ingest_path-Triple env anything request.source source))
            (λ s.
              Triple-bind {R = λ _ _. Unit {0}} (ask env.clock) _
                (Triple-ask env.clock (λ now f q. q))
                (λ now. publish-Triple (manifest_of request s now))))
    where
      anything : Grows env (λ _. Unit {0})
      anything = record { add = λ _ _ _ _ _ _. tt }

-- A lookup goes by the version that a text resolves to.
describe_resolved :
    (m : ArtifactManifest) (f : Files) (t : Text)
    → Published m f
    → resolve_version m.reference.kind m.reference.name t f ≡ ok m.reference.version
    → describe_parts m.reference.kind m.reference.name t f ≡ ok m
unfolding describe_parts
describe_resolved m f t (there, _) e =
    ap (λ r. r >>= found) e ∙ ap (read_manifest (manifest_path m.reference)) there
  where
    found : Text → RlabResult ArtifactManifest
    found version =
        let path =
          manifest_path
            (record { kind = m.reference.kind; name = m.reference.name; version = version }) in
        read_manifest path (Assoc.get path f)

abbrev pub with_version : ArtifactReference → Text → ArtifactReference
with_version r version = record { kind = r.kind; name = r.name; version = version }

resolve_manifest :
    (r : ArtifactReference) (f : Files) (x : File)
    → Assoc.get (manifest_path r) f ≡ some x
    → resolve_version r.kind r.name r.version f ≡ ok r.version
unfolding resolve_version
resolve_manifest r f x e =
    ap
      (λ o.
        if is_some o
        then ok r.version
        else read_alias (alias_path r r.version) (Assoc.get (alias_path r r.version) f))
      e

resolve_alias :
    (r : ArtifactReference) (a : Text) (f : Files)
    → Assoc.get (manifest_path (with_version r a)) f ≡ none
    → Assoc.get (alias_path r a) f ≡ some (text r.version)
    → trim r.version ≡ r.version
    → is_blank r.version ≡ false
    → resolve_version r.kind r.name a f ≡ ok r.version
unfolding resolve_version alias_path read_alias is_blank
resolve_alias r a f free link trimmed given =
    ap (λ o. if is_some o then ok a else read_alias (alias_path r a) (Assoc.get (alias_path r a) f))
      free
    ∙ (ap (read_alias (alias_path r a)) link ∙ whole (trim r.version) trimmed)
  where
    given_text : (t : Text) → is_blank t ≡ false → is_empty t ≡ false
    given_text [] h = cc
    given_text (c ∷ t) h = refl

    whole :
        (t : Text)
        → t ≡ r.version
        → (if is_empty t
            then err (artifact (format "artifact alias is empty: {}" (alias_path r a ∷ [])))
            else ok t)
          ≡ ok r.version
    whole t e = ground (arith, e, given_text r.version given)

module _ (env : Environment) (request : PromoteRequest) (source : Source) (w w' : World Files)
    (m : ArtifactManifest) (returns : promote env request source w ≡ (ok m, w'))
    (plain : IsPlain m) where
  published : Published m w'.files
  published =
      subst
        (λ (r : RlabResult ArtifactManifest × World Files).
          Post (λ m f. IsPlain m → Published m f) (λ _. Unit {0}) r.0 r.1.files)
        returns ((promote-Published env request source).at w tt) plain

  -- When a promotion returns, the artifact is found by its version, its names being single
  -- components of paths.
  pub describe-promote :
      describe_parts m.reference.kind m.reference.name m.reference.version w'.files ≡ ok m
  describe-promote =
      describe_resolved m w'.files m.reference.version published
        (resolve_manifest m.reference w'.files (manifest m) published.0)

  -- When a promotion with an alias returns, the artifact is found by the alias, its names being
  -- single components of paths, no version being spelled like the alias, and the version being
  -- neither blank nor with a space at an end.
  pub describe-promote_alias :
      (a : Text)
      → m.alias ≡ some a
      → Assoc.get (manifest_path (with_version m.reference a)) w'.files ≡ none
      → trim m.reference.version ≡ m.reference.version
      → is_blank m.reference.version ≡ false
      → describe_parts m.reference.kind m.reference.name a w'.files ≡ ok m
  describe-promote_alias a named free trimmed given =
      describe_resolved m w'.files a published
        (resolve_alias m.reference a w'.files free (published.1 a named) trimmed given)
