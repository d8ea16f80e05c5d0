-- ===== src/Artifact/Sweep/Reach.antt =====
-- What the set of reachable objects contains.
use research_lab.Prelude.{
  ◌≡◌, refl, sym, ap, subst, ◌∙◌, inl, inr, Bool, true, false, Option, none, some, List, [], ◌∷◌,
  arith, Member, ltb, if◌then◌else◌, find-Member, keep_if,
}
use research_lab.Prelude.Text.{Text, txt, starts_with}
use research_lab.Prelude.Outcome.{RlabResult, ok, err, ◌>>=◌, bind-eq-ok, artifact, panic, format}
use research_lab.Prelude.Assoc
use research_lab.Artifact.Layout.{
  ArtifactManifest, TreeEntry, TreeManifest, File, tree, rows, Files, index_file, blob_path,
  blobs_dir, parse_digest, join, split_prefix,
}
use research_lab.Artifact.Lookup.{list, sort_rows, no_manifest}
use research_lab.Artifact.Sweep.Latest.{latest_for, is_for, latest_for-sort_rows, find-latest_rows}
use research_lab.Artifact.Sweep.{
  SweptRun, contains, insert_blob, insert_entries, insert_tree, insert_object_path,
  insert_manifests, latest_rows, reachable_objects, objects_root, byte_len,
}
use research_lab.Artifact.Sweep.Within.{
  contains_self, ok-injective, insert_entries-Within, insert_object_path-Within,
  insert_manifests-Within, insert_runs-Within,
}

-- An object that a manifest needs: its own, or a blob that its tree lists.
pub data Needs (f : Files) (m : ArtifactManifest) : Text → Type 0 where
  object : Needs f m m.object_path
  entry :
      {path : Text} (t : TreeManifest) (e : TreeEntry)
      → objects_root m.object_path ≡ some (txt "objects")
      → Assoc.get m.object_path f ≡ some (tree t)
      → Member e t.entries
      → blob_path e.sha256 ≡ ok path
      → Needs f m path

byte_len-split_prefix :
    (sha : Text) (x : Text × Text) → split_prefix sha ≡ some x → ltb (byte_len sha) 2 ≡ false
unfolding split_prefix
byte_len-split_prefix [] x e = cc
byte_len-split_prefix (c ∷ []) x e = ground arith
byte_len-split_prefix (c ∷ d ∷ t) x e = ground arith

blobs_folder : join (txt "objects") (txt "blobs") ≡ blobs_dir
unfolding join starts_with
blobs_folder = refl

-- Where a blob is found.
blob_path-split_prefix :
    (sha path : Text)
    → blob_path sha ≡ ok path
    → (x : Text × Text) × (split_prefix sha ≡ some x) × (path ≡ join (join blobs_dir x.0) sha)
unfolding blob_path parse_digest
blob_path-split_prefix sha path e = by_split (split_prefix sha) refl e
  where
    by_split :
        (o : Option (Text × Text))
        → split_prefix sha ≡ o
        → ((elim o [
          | none ↦ err (artifact (format "invalid digest prefix" []))
          | some (prefix, []) ↦ err (artifact (format "invalid digest body" []))
          | some (prefix, c ∷ body) ↦ ok (prefix, sha)
        ])
            >>= λ (parts : Text × Text). ok (join (join blobs_dir parts.0) parts.1))
          ≡ ok path
        → (x : Text × Text) × (split_prefix sha ≡ some x) × (path ≡ join (join blobs_dir x.0) sha)
    by_split none eo e = cc
    by_split (some (p, [])) eo e = cc
    by_split (some (p, c ∷ body)) eo e = ((p, c ∷ body), eo, cc)

insert_blob-contains :
    (sha path : Text) (r s : List Text)
    → blob_path sha ≡ ok path
    → insert_blob (txt "objects") sha r ≡ ok s
    → contains s path ≡ true
unfolding insert_blob
insert_blob-contains sha path r s e h =
    let (x, split, at) = blob_path-split_prefix sha path e in
    subst (λ p. contains s p ≡ true) (sym at)
      (by_split x (split_prefix sha) split (ltb (byte_len sha) 2)
        (byte_len-split_prefix sha x split) h)
  where
    by_split :
        (x : Text × Text) (o : Option (Text × Text))
        → o ≡ some x
        → (small : Bool) → small ≡ false
        → (if small then ok r else (elim o [
          | none ↦ err (panic (format "byte index 2 is not a char boundary" []))
          | some (prefix, rest) ↦
              ok (join (join (join (txt "objects") (txt "blobs")) prefix) sha ∷ r)
        ]))
          ≡ ok s
        → contains s (join (join blobs_dir x.0) sha) ≡ true
    by_split x none eo small es h = cc
    by_split x (some y) eo true es h = cc
    by_split x (some y) eo false es h =
        let place = join (join blobs_dir x.0) sha in
        let same : y ≡ x = cc eo in
        let here : place ∷ r ≡ s =
          ap (λ b. join (join b x.0) sha ∷ r) (sym blobs_folder)
          ∙ (ap (λ (z : Text × Text). join (join (join (txt "objects") (txt "blobs")) z.0) sha ∷ r)
                (sym same)
              ∙ ok-injective h) in
        subst (λ s. contains s place ≡ true) here (contains_self place r)

insert_entries-contains :
    (es : List TreeEntry) (e : TreeEntry) (path : Text) (r s : List Text)
    → Member e es
    → blob_path e.sha256 ≡ ok path
    → insert_entries (txt "objects") es r ≡ ok s
    → contains s path ≡ true
unfolding insert_entries
insert_entries-contains [] e path r s member at h = absurd member
insert_entries-contains (x ∷ xs) e path r s member at h =
    let (m, first, rest) =
      bind-eq-ok (insert_blob (txt "objects") x.sha256 r) (insert_entries (txt "objects") xs) h in
    by_place m first rest member (λ later. insert_entries-contains xs e path m s later at rest)
  where
    by_place :
        (m : List Text)
        → insert_blob (txt "objects") x.sha256 r ≡ ok m
        → insert_entries (txt "objects") xs m ≡ ok s
        → Member e (x ∷ xs)
        → (Member e xs → contains s path ≡ true)
        → contains s path ≡ true
    by_place m first rest (inl same) deeper =
        insert_entries-Within (txt "objects") xs m s rest path (
          insert_blob-contains x.sha256 path r m (ap (λ y. blob_path y.sha256) (sym same) ∙ at)
            first)
    by_place m first rest (inr later) deeper = deeper later

insert_object_path-Needs :
    (f : Files) (m : ArtifactManifest) (k : Text) (r s : List Text)
    → insert_object_path f m.object_path r ≡ ok s
    → Needs f m k
    → contains s k ≡ true
unfolding insert_object_path insert_tree
insert_object_path-Needs f m k r s h object =
    insert_object_path-Within f m.object_path r s h m.object_path (contains_self m.object_path r)
insert_object_path-Needs f m k r s h (entry t e root at member path) =
    insert_entries-contains t.entries e k (m.object_path ∷ r) s member path (by_root ∙ h)
  where
    by_objects : Option Text → RlabResult (List Text)
    by_objects o = elim o [
      | none ↦ ok (m.object_path ∷ r)
      | some root ↦ insert_tree m.object_path root (Assoc.get m.object_path f) (m.object_path ∷ r)
    ]

    by_root :
        insert_entries (txt "objects") t.entries (m.object_path ∷ r)
        ≡ insert_object_path f m.object_path r
    by_root = sym (
        ap by_objects root
        ∙ ap (λ o. insert_tree m.object_path (txt "objects") o (m.object_path ∷ r)) at)

insert_manifests-Needs :
    (f : Files) (ms : List ArtifactManifest) (m : ArtifactManifest) (k : Text) (r s : List Text)
    → Member m ms
    → Needs f m k
    → insert_manifests f ms r ≡ ok s
    → contains s k ≡ true
unfolding insert_manifests
insert_manifests-Needs f [] m k r s member needs h = absurd member
insert_manifests-Needs f (x ∷ xs) m k r s member needs h =
    let (t, first, rest) =
      bind-eq-ok (insert_object_path f x.object_path r) (insert_manifests f xs) h in
    by_place t first rest member (λ later. insert_manifests-Needs f xs m k t s later needs rest)
  where
    by_place :
        (t : List Text)
        → insert_object_path f x.object_path r ≡ ok t
        → insert_manifests f xs t ≡ ok s
        → Member m (x ∷ xs)
        → (Member m xs → contains s k ≡ true)
        → contains s k ≡ true
    by_place t first rest (inl same) deeper = insert_manifests-Within f xs t s rest k (
        insert_object_path-Needs f m k r t
          (ap (λ y. insert_object_path f y.object_path r) same ∙ first) needs)
    by_place t first rest (inr later) deeper = deeper later

keep_if-all : (ms : List ArtifactManifest) → keep_if (λ _. true) ms ≡ ms
keep_if-all [] = refl
keep_if-all (m ∷ ms) = ap (λ l. m ∷ l) (keep_if-all ms)

list_everything :
    (f : Files) (rs : List ArtifactManifest)
    → Assoc.get index_file f ≡ some (rows rs)
    → list none none none f ≡ ok (sort_rows rs)
unfolding list
list_everything f rs e = ap listed e ∙ ap (λ l. ok (sort_rows l)) (keep_if-all rs)
  where
    listed : Option File → RlabResult (List ArtifactManifest)
    listed o = elim o [
      | none ↦ ok []
      | some (rows ms) ↦ ok (sort_rows (keep_if (λ _. true) ms))
      | some other ↦ err no_manifest
    ]

latest-Member :
    (m : ArtifactManifest) (rs : List ArtifactManifest)
    → latest_for m.reference rs ≡ some m
    → Member m (latest_rows (sort_rows rs) [])
latest-Member m rs e = find-Member (is_for m.reference) _ (
    find-latest_rows m.reference (sort_rows rs) []
    ∙ ap (λ o. elim o [ none ↦ none | some n ↦ some n ]) (latest_for-sort_rows m.reference rs ∙ e))

-- The latest manifest of a reference has what it needs among the reachable objects.
pub reachable_objects-Needs :
    (runs : List SweptRun) (f : Files) (rs : List ArtifactManifest) (m : ArtifactManifest)
    (k : Text) (s : List Text)
    → Assoc.get index_file f ≡ some (rows rs)
    → latest_for m.reference rs ≡ some m
    → Needs f m k
    → reachable_objects runs f ≡ ok s
    → contains s k ≡ true
unfolding reachable_objects
reachable_objects-Needs runs f rs m k s index latest needs h =
    let (listed, e, rest) = bind-eq-ok (list none none none f) _ h in
    let (t, first, later) = bind-eq-ok (insert_manifests f (latest_rows listed []) []) _ rest in
    insert_runs-Within f runs t s later k (
      insert_manifests-Needs f (latest_rows listed []) m k [] t
        (subst (λ l. Member m (latest_rows l [])) (unwrap (sym (list_everything f rs index) ∙ e))
          (latest-Member m rs latest))
        needs first)
  where
    unwrap : {a b : List ArtifactManifest} → ok a ≡ ok b → a ≡ b
    unwrap e = cc
