-- ===== src/Artifact/Store/Growth.antt =====
-- Ingestion only adds objects to the store, and adds what it refers to first.
use research_lab.Prelude.{
  ◌≡◌, refl, inl, inr, ℕ, Bool, true, false, Option, none, some, List, [], ◌∷◌, is_some,
  Option-cases, Ordering,
}
use research_lab.Prelude.Text.{Text, text_cmp}
use research_lab.Prelude.Outcome.{ok}
use research_lab.Prelude.Assoc
use research_lab.Prelude.Assoc.{get-insert_self, get-insert_ne}
use research_lab.Prelude.Effect.{lift}
use research_lab.Prelude.Effect.Triple.{
  Triple, Triple-pure, Triple-raise, Triple-lift, Triple-reads, Triple-weaken, Triple-bind,
  Triple-perform, Triple-given,
}
use research_lab.Artifact.Layout.{
  TreeEntry, Contents, tree, Files, tree_digest, blob_path, tree_path,
}
use research_lab.Artifact.Store.{
  SourceFile, Source, plain_file, folder, neither, Environment, touch, write, leave, copy_file,
  exists, unless, ingest_file, ingest_entries, ingest_directory, ingest_path, sort_entries,
  insert_entry, relative_to_string, stored_file, tree_entry, tree_of, stored_directory,
}
use research_lab.Artifact.Store.Held.{
  whole, part, listing, Grows, Has, Held, AllHeld, absent, Grows-Held, Grows-both, Has-put,
}

module _ (env : Environment) {I : Files → Type 0} (grows : Grows env I) where
  -- A copy to a place that is free.
  copy_file-Triple :
      (source : Contents) (path : Text)
      → blob_path (env.digest.sha256_bytes source) ≡ ok path
      → Triple
          (λ f. I f × (Assoc.get path f ≡ none))
          (copy_file env source path)
          (λ _ f. I f × Has path f)
          I
  unfolding copy_file
  copy_file-Triple source path e = record {
    at = λ w (i, a). elim (Option-cases (env.failure w.steps)) [
      | inl fine ↦
          rw (fine, copy_file)
            (grows.add w.files path _ (whole source e) a i, Has-put w.files path _)
      | inr (x, failed) ↦
          rw (failed, copy_file) (left w.files w.steps (env.remains w.steps) refl a i)
    ];
  }
    where
      left :
          (f : Files) (n : ℕ) (r : Option Contents)
          → env.remains n ≡ r
          → Assoc.get path f ≡ none
          → I f
          → I (leave path r f)
      left f n none er a i = i
      left f n (some rest) er a i = grows.add f path _ (part source rest n e er) a i

  pub touch-Triple :
      {P : Files → Type 0} → ((f : Files) → P f → I f) → Triple P (touch env) (λ _ f. P f) I
  touch-Triple h = Triple-perform env.failure (λ f. f) (λ f p. p) h

  ingest_file-Triple :
      (source_path : Text) (source : Contents)
      → Triple I
          (ingest_file env source_path source)
          (λ s f.
            I f
            × ((s.sha256 ≡ env.digest.sha256_bytes source)
                × (blob_path s.sha256 ≡ ok s.object_path)
                × Has s.object_path f))
          I
  unfolding ingest_file
  ingest_file-Triple source_path source = Triple-bind (touch env) _ (touch-Triple (λ f i. i)) (λ _.
      Triple-bind {R = λ path f. I f × (blob_path digest ≡ ok path)} (lift (blob_path digest)) _
        (Triple-lift (blob_path digest) (λ path f e i. (i, e)) (λ f i. i))
        (λ path. Triple-given _ (λ e.
          Triple-bind {R = λ there f. I f × (is_some (Assoc.get path f) ≡ there)} (exists env path)
            _ (Triple-reads _ (λ there f h i. (i, known _ _ h)) (λ f i. i))
            (λ there. Triple-bind _ _ (stored path e there) (λ _.
              Triple-bind (touch env) _ (touch-Triple (λ f (i, h). i)) (λ _.
                Triple-pure (stored_file source_path source digest path)
                  (λ f (i, h). (i, (refl, e, h)))))))))
    where
      digest : Text
      digest = env.digest.sha256_bytes source

      known : (a b : Bool) → ok a ≡ ok b → a ≡ b
      known a b h = cc

      stored :
          (path : Text)
          → blob_path digest ≡ ok path
          → (there : Bool)
          → Triple
              (λ f. I f × (is_some (Assoc.get path f) ≡ there))
              (unless env there (copy_file env source path))
              (λ _ f. I f × Has path f)
              I
      stored path e true = Triple-pure tt (λ f (i, h). (i, h))
      stored path e false = Triple-bind (touch env) _ (touch-Triple (λ f (i, h). i)) (λ _.
          Triple-weaken _ (λ f (i, h). (i, absent _ h)) (λ _ f q. q) (λ f i. i)
            (copy_file-Triple source path e))

insert_entry-AllHeld :
    (f : Files) (e : TreeEntry) (es : List TreeEntry)
    → Held f e.sha256
    → AllHeld f es
    → AllHeld f (insert_entry e es)
unfolding insert_entry
insert_entry-AllHeld f e [] h hs = (h, hs)
insert_entry-AllHeld f e (x ∷ xs) h hs =
    by_order (text_cmp e.path x.path) (insert_entry-AllHeld f e xs h hs.1)
  where
    by_order :
        (o : Ordering)
        → AllHeld f (insert_entry e xs)
        → AllHeld f (elim o [ Ordering.gt ↦ x ∷ insert_entry e xs | _ ↦ e ∷ x ∷ xs ])
    by_order Ordering.lt later = (h, hs)
    by_order Ordering.eq later = (h, hs)
    by_order Ordering.gt later = (hs.0, later)

sort_entries-AllHeld :
    (f : Files) (es : List TreeEntry) → AllHeld f es → AllHeld f (sort_entries es)
unfolding sort_entries
sort_entries-AllHeld f [] h = h
sort_entries-AllHeld f (e ∷ es) h =
    insert_entry-AllHeld f e (sort_entries es) h.0 (sort_entries-AllHeld f es h.1)

ingest_entries-Triple :
    (env : Environment) {I : Files → Type 0}
    → Grows env I
    → (source_path : Text) (fs : List SourceFile)
    → Triple I (ingest_entries env source_path fs) (λ es f. I f × AllHeld f es) I
unfolding ingest_entries
ingest_entries-Triple env grows source_path [] = Triple-pure [] (λ f i. (i, tt))
ingest_entries-Triple env {I} grows source_path (x ∷ xs) =
    Triple-bind (touch env) _ (touch-Triple env grows (λ f i. i)) (λ _.
      Triple-bind {R = λ s f. I f × Held f s.sha256} _ _
        (Triple-weaken _ (λ f i. i) (λ s f (i, (e, b, h)). (i, (s.object_path, b, h))) (λ f i. i)
          (ingest_file-Triple env grows source_path x.contents))
        (λ s. Triple-bind (touch env) _ (touch-Triple env grows (λ f (i, h). i)) (λ _.
          Triple-bind {R = λ path f. I f × Held f s.sha256} (lift (relative_to_string x.relative)) _
            (Triple-lift _ (λ path f e p. p) (λ f (i, h). i))
            (λ path.
              Triple-bind _ _
                (Triple-weaken _ (λ f p. p) (λ es f q. q) (λ f (i, h). i)
                  (ingest_entries-Triple env {I = λ f. I f × Held f s.sha256}
                    (Grows-both env grows (Grows-Held env s.sha256)) source_path xs))
                (λ rest.
                  Triple-pure (tree_entry x path s.sha256 ∷ rest)
                    (λ f ((i, h), hs). (i, (h, hs))))))))

ingest_directory-Triple :
    (env : Environment) {I : Files → Type 0}
    → Grows env I
    → (source_path : Text) (fs : List SourceFile)
    → Triple I (ingest_directory env source_path fs) (λ s f. I f × Has s.object_path f) I
unfolding ingest_directory
ingest_directory-Triple env {I} grows source_path fs =
    Triple-bind _ _ (ingest_entries-Triple env grows source_path fs) (λ walked.
      Triple-bind
        {R = λ there f.
          (I f × AllHeld f (sort_entries walked)) × (is_some (Assoc.get (place walked) f) ≡ there)}
        (exists env (place walked)) _
        (Triple-reads _
          (λ there f h (i, held). ((i, sort_entries-AllHeld f walked held), known _ _ h))
          (λ f (i, h). i))
        (λ there. Triple-bind _ _ (listed walked there) (λ _.
          Triple-pure
            (stored_directory source_path (sort_entries walked) (digest walked) (place walked))
            (λ f q. q))))
  where
    digest : List TreeEntry → Text
    digest walked = tree_digest env.digest (sort_entries walked)

    place : List TreeEntry → Text
    place walked = tree_path (digest walked)

    known : (a b : Bool) → ok a ≡ ok b → a ≡ b
    known a b h = cc

    listed :
        (walked : List TreeEntry) (there : Bool)
        → Triple
            (λ f.
              (I f × AllHeld f (sort_entries walked))
              × (is_some (Assoc.get (place walked) f) ≡ there))
            (unless env there
              (write env (place walked) (tree (tree_of (sort_entries walked) (digest walked)))))
            (λ _ f. I f × Has (place walked) f)
            I
    listed walked true = Triple-pure tt (λ f ((i, h), e). (i, e))
    listed walked false =
        Triple-bind (touch env) _ (touch-Triple env grows (λ f ((i, h), e). i)) (λ _.
          Triple-perform env.failure _
            (λ f ((i, h), e).
              (grows.add f _ _ (listing (sort_entries walked) h) (absent _ e) i, Has-put f _ _))
            (λ f ((i, h), e). i))

-- Whichever operations fail, ingestion keeps what additions keep; when it returns, the object that
-- it names is in the store.
pub ingest_path-Triple :
    (env : Environment) {I : Files → Type 0}
    → Grows env I
    → (source_path : Text) (source : Source)
    → Triple I (ingest_path env source_path source) (λ s f. I f × Has s.object_path f) I
unfolding ingest_path
ingest_path-Triple env grows source_path (plain_file contents) =
    Triple-bind (touch env) _ (touch-Triple env grows (λ f i. i)) (λ _.
      Triple-weaken _ (λ f i. i) (λ s f (i, (e, b, h)). (i, h)) (λ f i. i)
        (ingest_file-Triple env grows source_path contents))
ingest_path-Triple env grows source_path (folder fs) =
    Triple-bind (touch env) _ (touch-Triple env grows (λ f i. i))
      (λ _. ingest_directory-Triple env grows source_path fs)
ingest_path-Triple env grows source_path neither =
    Triple-bind (touch env) _ (touch-Triple env grows (λ f i. i)) (λ _. Triple-raise _ (λ f i. i))
