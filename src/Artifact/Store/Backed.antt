-- ===== src/Artifact/Store/Backed.antt =====
-- What the store promises of its manifests and trees, and that promoting keeps it.
use research_lab.Prelude.{
  ◌≡◌, sym, ap, subst, ◌∙◌, ◌⊎◌, inl, inr, false, ◌||◌, Option, none, some, List, [], ◌∷◌, is_some,
  Bool-cases,
}
use research_lab.Prelude.Text.{Text, text_eq, text_eq_iff, is_blank}
use research_lab.Prelude.Assoc
use research_lab.Prelude.Assoc.{get-insert_self, get-insert_ne}
use research_lab.Prelude.Effect.{World, pure, raise, ask, ◌>>◌}
use research_lab.Prelude.Effect.Triple.{
  Triple, Triple-pure, Triple-raise, Triple-if, Triple-bind, Triple-perform, Triple-ask,
  Triple-always,
}
use research_lab.Artifact.Layout.{
  ArtifactManifest, TreeEntry, File, blob, tree, manifest, text, rows, Files, alias_path,
}
use research_lab.Artifact.Store.{
  PromoteRequest, Source, Environment, put, touch, write, write_manifest, append_index, write_alias,
  manifest_of, publish, promote, artifact_error,
}
use research_lab.Artifact.Store.Held.{Has, AllHeld}
use research_lab.Artifact.Store.Held.{Addition, whole, part, listing, Grows}
use research_lab.Artifact.Store.Growth.{ingest_path-Triple, touch-Triple}

-- The objects that a file of the store names are there.
abbrev pub Supported : Files → File → Type 0
Supported f (tree t) = AllHeld f t.entries
Supported f (manifest m) = Has m.object_path f
Supported f other = Unit

pub record IsBacked (f : Files) : Type 0 where
  pub backed : (path : Text) (x : File) → Assoc.get path f ≡ some x → Supported f x

-- What stands at a path after a write.
pub get-put_cases :
    (k path : Text) (x y : File) (f : Files)
    → Assoc.get k (put path x f) ≡ some y
    → (y ≡ x) ⊎ (Assoc.get k f ≡ some y)
get-put_cases k path x y f e = elim (Bool-cases (text_eq k path)) [
  | inl same ↦
      let same' = (text_eq_iff k path).0 same in
      inl (unwrap (sym e ∙ (ap (λ k. Assoc.get k (put path x f)) same' ∙ get-insert_self path x f)))
  | inr other ↦ inr (sym (get-insert_ne k path x f (differ other)) ∙ e)
]
  where
    unwrap : some y ≡ some x → y ≡ x
    unwrap e = cc

    differ : text_eq k path ≡ false → k ≡ path → ⊥
    differ other same = cc (other, (text_eq_iff k path).1 same)

pub Has-put_any : (k path : Text) (x : File) (f : Files) → Has k f → Has k (put path x f)
Has-put_any k path x f h = elim (Bool-cases (text_eq k path)) [
  | inl same ↦
      subst (λ k. Has k (put path x f)) (sym ((text_eq_iff k path).0 same))
        (ap is_some (get-insert_self path x f))
  | inr other ↦ ap is_some (get-insert_ne k path x f (differ other)) ∙ h
]
  where
    differ : text_eq k path ≡ false → k ≡ path → ⊥
    differ other same = cc (other, (text_eq_iff k path).1 same)

AllHeld-put :
    (path : Text) (x : File) (f : Files) (es : List TreeEntry)
    → AllHeld f es
    → AllHeld (put path x f) es
AllHeld-put path x f [] h = tt
AllHeld-put path x f (e ∷ es) ((p, d, h), hs) =
    ((p, d, Has-put_any p path x f h), AllHeld-put path x f es hs)

Supported-put : (path : Text) (x y : File) (f : Files) → Supported f y → Supported (put path x f) y
Supported-put path x (tree t) f h = AllHeld-put path x f t.entries h
Supported-put path x (manifest m) f h = Has-put_any m.object_path path x f h
Supported-put path x (blob c) f h = tt
Supported-put path x (text t) f h = tt
Supported-put path x (rows ms) f h = tt

pub put-IsBacked :
    (path : Text) (x : File) (f : Files) → Supported f x → IsBacked f → IsBacked (put path x f)
put-IsBacked path x f s b = record {
  backed = λ k y e. elim (get-put_cases k path x y f e) [
    | inl same ↦ subst (Supported (put path x f)) (sym same) (Supported-put path x x f s)
    | inr old ↦ Supported-put path x y f (b.backed k y old)
  ];
}

Addition-Supported :
    {env : Environment} {f : Files} {path : Text} {x : File} → Addition env f path x → Supported f x
Addition-Supported (whole source e) = tt
Addition-Supported (part source rest n e r) = tt
Addition-Supported (listing entries h) = h

pub Grows-IsBacked : (env : Environment) → Grows env IsBacked
Grows-IsBacked env = record {
  add = λ f path x ad _ b. put-IsBacked path x f (Addition-Supported ad) b;
}

module _ (env : Environment) where
  grows : Grows env IsBacked
  grows = Grows-IsBacked env

  write_alias-IsBacked :
      (m : ArtifactManifest) → Triple IsBacked (write_alias env m) (λ _ f. IsBacked f) IsBacked
  unfolding write_alias
  write_alias-IsBacked m = by_alias m.alias
    where
      by_alias :
          (a : Option Text)
          → Triple IsBacked
              (elim a [
                | none ↦ pure tt
                | some alias ↦
                    (touch env
                      >> write env (alias_path m.reference alias) (text m.reference.version))
              ])
              (λ _ f. IsBacked f)
              IsBacked
      by_alias none = Triple-pure tt (λ f b. b)
      by_alias (some alias) =
          Triple-bind (touch env) _ (touch-Triple env grows (λ f b. b))
            (λ _. Triple-perform env.failure _ (λ f b. put-IsBacked _ _ f tt b) (λ f b. b))

  publish-IsBacked :
      (m : ArtifactManifest)
      → Triple (λ f. IsBacked f × Has m.object_path f) (publish env m) (λ _ f. IsBacked f) IsBacked
  unfolding publish write_manifest append_index
  publish-IsBacked m =
      Triple-bind {R = λ _ f. IsBacked f} (write_manifest env m) _
        (Triple-bind (touch env) _ (touch-Triple env grows (λ f (b, h). b))
          (λ _. Triple-perform env.failure _ (λ f (b, h). put-IsBacked _ _ f h b) (λ f (b, h). b)))
        (λ _.
          Triple-bind {R = λ _ f. IsBacked f} (append_index env m) _
            (Triple-perform env.failure _ (λ f b. put-IsBacked _ _ f tt b) (λ f b. b))
            (λ _. Triple-bind _ _ (write_alias-IsBacked m) (λ _. Triple-pure m (λ f b. b))))

  promote-Triple :
      (request : PromoteRequest) (source : Source)
      → Triple IsBacked (promote env request source) (λ _ f. IsBacked f) IsBacked
  unfolding promote
  promote-Triple request source =
      Triple-if (is_blank request.artifact_kind || is_blank request.name) (raise artifact_error) _
        (λ _. Triple-raise artifact_error (λ f b. b))
        (λ _. Triple-bind _ _ (ingest_path-Triple env grows request.source source) (λ s.
          Triple-bind {R = λ _ f. IsBacked f × Has s.object_path f} (ask env.clock) _
            (Triple-ask env.clock (λ now f q. q))
            (λ now. publish-IsBacked (manifest_of request s now))))

  -- Whichever operations fail, and also when a copy is broken off: if before a promotion every
  -- manifest's object and every object that a tree lists were in the store, then so they are
  -- afterwards, those of the new manifest and tree included.
  pub promote-IsBacked :
      (request : PromoteRequest) (source : Source) (w : World Files)
      → IsBacked w.files
      → IsBacked (promote env request source w).1.files
  promote-IsBacked request source w b = Triple-always (promote-Triple request source) w b
