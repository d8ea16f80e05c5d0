-- ===== src/Artifact/Sweep/Kept.antt =====
-- What the removal of unreachable objects leaves.
use research_lab.Prelude.{
  ◌≡◌, ◌≢◌, refl, sym, ap, subst, ◌∙◌, Bool, true, false, not, ◌&&◌, Option, some, List, [], ◌∷◌,
  arith, All, keep_if-All,
}
use research_lab.Prelude.Text.{Text}
use research_lab.Prelude.Outcome.{RlabResult, ok, err}
use research_lab.Prelude.Assoc
use research_lab.Prelude.Assoc.{get-remove_ne, keys}
use research_lab.Prelude.Effect.{World, pure, reads, next, perform}
use research_lab.Prelude.Effect.Triple.{
  Triple, Triple-pure, Triple-reads, Triple-if, Triple-bind, Triple-perform, Triple-given,
  Triple-always,
}
use research_lab.Storage.Collect.{GcSummary, empty_summary}
use research_lab.Artifact.Layout.{ArtifactManifest, File, rows, Files, index_file}
use research_lab.Artifact.Sweep.{
  SweptRun, SweepEnvironment, contains, in_objects, unreachable, bytes_at, count_file, remove_files,
  remove_unreachable_files, reachable_objects, sweep_unreachable_objects,
}
use research_lab.Artifact.Sweep.Latest.{latest_for}
use research_lab.Artifact.Sweep.Reach.{Needs, reachable_objects-Needs}

module _ (env : SweepEnvironment) (dry_run : Bool) (k : Text) (o : Option File) where
  abbrev Still : Files → Type 0
  Still f = Assoc.get k f ≡ o

  remove_files-Triple :
      (paths : List Text) (summary : GcSummary)
      → All (λ p. k ≢ p) paths
      → Triple Still (remove_files env dry_run paths summary) (λ _ f. Still f) Still
  unfolding remove_files
  remove_files-Triple [] summary others = Triple-pure summary (λ f h. h)
  remove_files-Triple (p ∷ ps) summary others =
      Triple-bind {R = λ _ f. Still f} (reads (λ f. ok (bytes_at env p f))) _
        (Triple-reads _ (λ b f e h. h) (λ f h. h))
        (λ bytes.
          Triple-bind {R = λ _ f. Still f} _ _
            (Triple-if dry_run (pure tt) (perform env.failure (Assoc.remove p))
              (λ _. Triple-pure tt (λ f h. h))
              (λ _.
                Triple-perform env.failure _ (λ f h. get-remove_ne k p f others.0 ∙ h) (λ f h. h)))
            (λ _. remove_files-Triple ps (count_file summary bytes) others.1))

  -- A path that is not taken for unreachable keeps its file.
  remove_unreachable_files-Triple :
      (reachable : List Text) (summary : GcSummary)
      → in_objects k && not (contains reachable k) ≡ false
      → Triple Still (remove_unreachable_files env dry_run reachable summary) (λ _ f. Still f) Still
  unfolding remove_unreachable_files
  remove_unreachable_files-Triple reachable summary spared =
      Triple-bind {R = λ _ f. Still f} (perform env.failure (λ f. f)) _
        (Triple-perform env.failure _ (λ f h. h) (λ f h. h))
        (λ _.
          Triple-bind {R = λ paths f. Still f × All (λ p. k ≢ p) paths}
            (reads (λ f. ok (unreachable env dry_run reachable f))) _
            (Triple-reads _ (λ paths f e h. (h, subst (All (λ p. k ≢ p)) (unwrap e) (others f)))
              (λ f h. h))
            (λ paths. Triple-given _ (λ others.
              Triple-bind _ _ (remove_files-Triple paths summary others) (λ s.
                Triple-bind {R = λ _ f. Still f} (perform env.failure (λ f. f)) _
                  (Triple-perform env.failure _ (λ f h. h) (λ f h. h))
                  (λ _. Triple-pure s (λ f h. h))))))
    where
      unwrap : {a b : List Text} → ok a ≡ ok b → a ≡ b
      unwrap e = cc

      mismatch : false ≡ true → ⊥
      mismatch e = cc

      taken : Text → Bool
      taken p = in_objects p && not (contains reachable p)

      others : (f : Files) → All (λ p. k ≢ p) (unreachable env dry_run reachable f)
      others f =
          keep_if-All _ taken (keys f) (λ p e same. mismatch (sym spared ∙ (ap taken same ∙ e)))

-- Sweeping starts with the set of reachable objects, and does nothing if it cannot be computed.
sweep-spares :
    (env : SweepEnvironment) (dry_run : Bool) (runs : List SweptRun) (w : World Files) (k : Text)
    → ((reachable : List Text)
        → reachable_objects runs w.files ≡ ok reachable
        → in_objects k && not (contains reachable k) ≡ false)
    → Assoc.get k (sweep_unreachable_objects env dry_run runs w).1.files ≡ Assoc.get k w.files
unfolding sweep_unreachable_objects
sweep-spares env dry_run runs w k spared = by_result (reachable_objects runs w.files) refl
  where
    by_result :
        (r : RlabResult (List Text))
        → reachable_objects runs w.files ≡ r
        → Assoc.get k
            (next
              (r, w)
              (λ reachable.
                remove_unreachable_files env dry_run reachable (empty_summary dry_run))).1.files
          ≡ Assoc.get k w.files
    by_result (err e) er = refl
    by_result (ok reachable) er =
        Triple-always
          (remove_unreachable_files-Triple env dry_run k (Assoc.get k w.files) reachable
            (empty_summary dry_run) (spared reachable er))
          w refl

-- Whichever operations fail: sweeping leaves the object of the latest manifest of a reference as it
-- was and, if it is a tree, each blob that the tree lists.
pub sweep-keeps :
    (env : SweepEnvironment) (dry_run : Bool) (runs : List SweptRun) (w : World Files)
    (rs : List ArtifactManifest) (m : ArtifactManifest) (k : Text)
    → Assoc.get index_file w.files ≡ some (rows rs)
    → latest_for m.reference rs ≡ some m
    → Needs w.files m k
    → Assoc.get k (sweep_unreachable_objects env dry_run runs w).1.files ≡ Assoc.get k w.files
sweep-keeps env dry_run runs w rs m k index latest needs =
    sweep-spares env dry_run runs w k λ reachable e.
      let found = reachable_objects-Needs runs w.files rs m k reachable index latest needs e in
      rw found (ground arith)
