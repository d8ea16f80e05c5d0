-- ===== src/Artifact/Sweep/Within.antt =====
-- That what is reachable stays in the set as more is added.
use research_lab.Prelude.{
  ◌≡◌, subst, inl, inr, Bool, true, false, ◌||◌, not, Option, none, some, List, [], ◌∷◌, arith,
  Option-cases, if◌then◌else◌,
}
use research_lab.Prelude.Text.{Text, txt, text_eq, text_eq_refl}
use research_lab.Prelude.Outcome.{RlabResult, ok, err, ◌>>=◌, bind-eq-ok}
use research_lab.Prelude.Assoc
use research_lab.Json.{Value}
use research_lab.Run.State.{completed, as_str}
use research_lab.Storage.Collect.{str_field}
use research_lab.Artifact.Layout.{
  ArtifactManifest, TreeEntry, File, blob, tree, manifest, text, rows, Files, split_prefix, trim,
}
use research_lab.Artifact.Sweep.{
  SweptRun, contains, insert_blob, insert_entries, insert_tree, insert_object_path,
  insert_manifests, insert_lines, insert_run, insert_runs, objects_root,
}

-- The second set has what the first has.
abbrev pub Within : List Text → List Text → Type 0
Within r s = (k : Text) → contains r k ≡ true → contains s k ≡ true

pub cons-Within : (p : Text) (r : List Text) → Within r (p ∷ r)
cons-Within p r k h = ground arith

pub contains_self : (p : Text) (r : List Text) → contains (p ∷ r) p ≡ true
contains_self p r = ground (arith, text_eq_refl p)

pub trans_Within : (r s t : List Text) → Within r s → Within s t → Within r t
trans_Within r s t h g k c = g k (h k c)

pub ok-injective : {r s : List Text} → ok r ≡ ok s → r ≡ s
ok-injective h = cc

pub equal-Within : {r s : List Text} → ok r ≡ ok s → Within r s
equal-Within {r} e k h = subst (λ s. contains s k ≡ true) (ok-injective e) h

pub insert_blob-Within :
    (root sha : Text) (r s : List Text) → insert_blob root sha r ≡ ok s → Within r s
unfolding insert_blob
insert_blob-Within root sha r s h k c = elim (Option-cases (split_prefix sha)) [
  | inl e ↦ ground arith
  | inr ((p, rest), e) ↦ ground arith
]

pub insert_entries-Within :
    (root : Text) (es : List TreeEntry) (r s : List Text)
    → insert_entries root es r ≡ ok s
    → Within r s
unfolding insert_entries
insert_entries-Within root [] r s h = equal-Within h
insert_entries-Within root (e ∷ es) r s h =
    let (m, first, rest) = bind-eq-ok (insert_blob root e.sha256 r) (insert_entries root es) h in
    trans_Within r m s (insert_blob-Within root e.sha256 r m first)
      (insert_entries-Within root es m s rest)

pub insert_object_path-Within :
    (f : Files) (path : Text) (r s : List Text)
    → insert_object_path f path r ≡ ok s
    → Within (path ∷ r) s
unfolding insert_object_path insert_tree
insert_object_path-Within f path r s h = by_root (objects_root path) h
  where
    by_file :
        (root : Text) (o : Option File)
        → insert_tree path root o (path ∷ r) ≡ ok s
        → Within (path ∷ r) s
    by_file root none h = cc
    by_file root (some (tree t)) h = insert_entries-Within root t.entries (path ∷ r) s h
    by_file root (some (manifest m)) h = equal-Within h
    by_file root (some (blob c)) h = cc
    by_file root (some (text t)) h = cc
    by_file root (some (rows ms)) h = cc

    by_root :
        (o : Option Text)
        → elim o [
          | none ↦ ok (path ∷ r)
          | some root ↦ insert_tree path root (Assoc.get path f) (path ∷ r)
        ]
          ≡ ok s
        → Within (path ∷ r) s
    by_root none h = equal-Within h
    by_root (some root) h = by_file root (Assoc.get path f) h

pub insert_manifests-Within :
    (f : Files) (ms : List ArtifactManifest) (r s : List Text)
    → insert_manifests f ms r ≡ ok s
    → Within r s
unfolding insert_manifests
insert_manifests-Within f [] r s h = equal-Within h
insert_manifests-Within f (m ∷ ms) r s h =
    let (t, first, rest) =
      bind-eq-ok (insert_object_path f m.object_path r) (insert_manifests f ms) h in
    trans_Within r t s
      (λ k c.
        insert_object_path-Within f m.object_path r t first k (cons-Within m.object_path r k c))
      (insert_manifests-Within f ms t s rest)

pub insert_lines-Within :
    (f : Files) (ls : List (RlabResult Value)) (r s : List Text)
    → insert_lines f ls r ≡ ok s
    → Within r s
unfolding insert_lines
insert_lines-Within f [] r s h = equal-Within h
insert_lines-Within f (err e ∷ ls) r s h = cc
insert_lines-Within f (ok v ∷ ls) r s h =
    let (t, first, rest) =
      bind-eq-ok (line (str_field (txt "object_path") v)) (insert_lines f ls) h in
    trans_Within r t s (by_path (str_field (txt "object_path") v) t first)
      (insert_lines-Within f ls t s rest)
  where
    line : Option Text → RlabResult (List Text)
    line o = elim o [ none ↦ ok r | some path ↦ insert_object_path f path r ]

    by_path : (o : Option Text) (t : List Text) → line o ≡ ok t → Within r t
    by_path none t h = equal-Within h
    by_path (some path) t h =
        λ k c. insert_object_path-Within f path r t h k (cons-Within path r k c)

pub insert_run-Within :
    (f : Files) (x : SweptRun) (r s : List Text) → insert_run f x r ≡ ok s → Within r s
unfolding insert_run
insert_run-Within f x r s h =
    by_tests (not x.is_dir || x.run_lock) (not (text_eq (trim x.status) (as_str completed)))
      x.artifacts h
  where
    by_tests :
        (a b : Bool) (o : Option (RlabResult (List (RlabResult Value))))
        → (if a
            then ok r
            else if b
            then ok r
            else (elim o [ none ↦ ok r | some lines ↦ lines >>= λ ls. insert_lines f ls r ]))
          ≡ ok s
        → Within r s
    by_tests true b o h = equal-Within h
    by_tests false true o h = equal-Within h
    by_tests false false none h = equal-Within h
    by_tests false false (some (err e)) h = cc
    by_tests false false (some (ok ls)) h = insert_lines-Within f ls r s h

pub insert_runs-Within :
    (f : Files) (xs : List SweptRun) (r s : List Text) → insert_runs f xs r ≡ ok s → Within r s
unfolding insert_runs
insert_runs-Within f [] r s h = equal-Within h
insert_runs-Within f (x ∷ xs) r s h =
    let (t, first, rest) = bind-eq-ok (insert_run f x r) (insert_runs f xs) h in
    trans_Within r t s (insert_run-Within f x r t first) (insert_runs-Within f xs t s rest)
