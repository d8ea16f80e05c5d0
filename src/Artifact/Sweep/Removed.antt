-- ===== src/Artifact/Sweep/Removed.antt =====
-- What the removal of unreachable objects removes.
use research_lab.Prelude.{
  ◌≡◌, sym, ap, subst, ◌∙◌, ◌⊎◌, inl, inr, Bool, true, false, not, ◌&&◌, none, some, List, [], ◌∷◌,
  arith, Member, keep_if, Bool-cases, Option-cases,
}
use research_lab.Prelude.Text.{Text, text_eq, text_eq_iff, text_cmp_eq}
use research_lab.Prelude.Outcome.{RlabResult, ok}
use research_lab.Prelude.Assoc
use research_lab.Prelude.Assoc.{get-remove_ne, get-remove_self, remove-IsSorted, keys}
use research_lab.Prelude.Effect.{World, reads, next, perform}
use research_lab.Prelude.Effect.Triple.{
  Triple, Post, Triple-pure, Triple-reads, Triple-bind, Triple-perform,
}
use research_lab.Storage.Collect.{GcSummary, empty_summary}
use research_lab.Artifact.Layout.{File, Files}
use research_lab.Artifact.Sweep.{
  SweptRun, SweepEnvironment, contains, in_objects, unreachable, bytes_at, count_file, remove_files,
  remove_unreachable_files, reachable_objects, sweep_unreachable_objects,
}

get-remove-none :
    (k p : Text) (f : Files)
    → Assoc.IsSorted f
    → Assoc.get k f ≡ none
    → Assoc.get k (Assoc.remove p f) ≡ none
get-remove-none k p f s h = elim (Bool-cases (text_eq k p)) [
  | inl same ↦
      subst (λ p. Assoc.get k (Assoc.remove p f) ≡ none) ((text_eq_iff k p).0 same)
        (get-remove_self k f s)
  | inr other ↦ get-remove_ne k p f (λ same. cc (other, (text_eq_iff k p).1 same)) ∙ h
]

keys-Member : (k : Text) (f : Files) (x : File) → Assoc.get k f ≡ some x → Member k (keys f)
unfolding Assoc.get keys
keys-Member k [] x h = cc
keys-Member k ((j, y) ∷ f) x h = elim (Bool-cases (text_eq k j)) [
  | inl same ↦ inl ((text_eq_iff k j).0 same)
  | inr other ↦ inr (keys-Member k f x (ground (arith, text_cmp_eq k j, text_eq_iff k j)))
]

keep_if-Member :
    (p : Text → Bool) (k : Text) (xs : List Text)
    → Member k xs
    → p k ≡ true
    → Member k (keep_if p xs)
keep_if-Member p k [] m h = absurd m
keep_if-Member p k (x ∷ xs) (inl same) h = rw (ap p (sym same) ∙ h) (inl same)
keep_if-Member p k (x ∷ xs) (inr later) h = elim (Bool-cases (p x)) [
  | inl e ↦ rw e (inr (keep_if-Member p k xs later h))
  | inr e ↦ rw e (keep_if-Member p k xs later h)
]

module _ (env : SweepEnvironment) (k : Text) where
  abbrev Gone : Files → Type 0
  Gone f = Assoc.IsSorted f × (Assoc.get k f ≡ none)

  abbrev Due : List Text → Files → Type 0
  Due paths f = Assoc.IsSorted f × ((Assoc.get k f ≡ none) ⊎ Member k paths)

  Due-next : (p : Text) (ps : List Text) (f : Files) → Due (p ∷ ps) f → Due ps (Assoc.remove p f)
  Due-next p ps f (s, inl gone) = (remove-IsSorted p f s, inl (get-remove-none k p f s gone))
  Due-next p ps f (s, inr (inl same)) = (
    remove-IsSorted p f s,
    inl (subst (λ p. Assoc.get k (Assoc.remove p f) ≡ none) same (get-remove_self k f s)),
  )
  Due-next p ps f (s, inr (inr later)) = (remove-IsSorted p f s, inr later)

  remove_files-removes :
      (paths : List Text) (summary : GcSummary)
      → Triple (Due paths) (remove_files env false paths summary) (λ _ f. Gone f) (λ _. Unit {0})
  unfolding remove_files
  remove_files-removes [] summary = Triple-pure summary last
    where
      last : (f : Files) → Due [] f → Gone f
      last f (s, inl gone) = (s, gone)
      last f (s, inr member) = absurd member
  remove_files-removes (p ∷ ps) summary =
      Triple-bind {R = λ _ f. Due (p ∷ ps) f} (reads (λ f. ok (bytes_at env p f))) _
        (Triple-reads _ (λ b f e h. h) (λ f h. tt))
        (λ bytes.
          Triple-bind {R = λ _ f. Due ps f} (perform env.failure (Assoc.remove p)) _
            (Triple-perform env.failure _ (λ f h. Due-next p ps f h) (λ f h. tt))
            (λ _. remove_files-removes ps (count_file summary bytes)))

  module _ (reachable : List Text) (inside : in_objects k ≡ true)
      (unreached : contains reachable k ≡ false) where
    taken : Text → Bool
    taken p = in_objects p && not (contains reachable p)

    due : (f : Files) → Assoc.IsSorted f → Due (unreachable env false reachable f) f
    unfolding taken
    due f s = elim (Option-cases (Assoc.get k f)) [
      | inl gone ↦ (s, inl gone)
      | inr (x, e) ↦ (s, inr (keep_if-Member taken k (keys f) (keys-Member k f x e) (ground arith)))
    ]

    remove_unreachable_files-removes :
        (summary : GcSummary)
        → Triple Assoc.IsSorted
            (remove_unreachable_files env false reachable summary)
            (λ _ f. Gone f)
            (λ _. Unit {0})
    unfolding remove_unreachable_files
    remove_unreachable_files-removes summary =
        Triple-bind {R = λ _ f. Assoc.IsSorted f} (perform env.failure (λ f. f)) _
          (Triple-perform env.failure _ (λ f h. h) (λ f h. tt))
          (λ _.
            Triple-bind {R = λ paths f. Due paths f}
              (reads (λ f. ok (unreachable env false reachable f))) _
              (Triple-reads _ (λ paths f e s. subst (λ ps. Due ps f) (unwrap e) (due f s))
                (λ f h. tt))
              (λ paths. Triple-bind _ _ (remove_files-removes paths summary) (λ s.
                Triple-bind {R = λ _ f. Gone f} (perform env.failure (λ f. f)) _
                  (Triple-perform env.failure _ (λ f h. h) (λ f h. tt))
                  (λ _. Triple-pure s (λ f h. h)))))
      where
        unwrap : {a b : List Text} → ok a ≡ ok b → a ≡ b
        unwrap e = cc

-- When a sweep returns and is no rehearsal, no file below `objects` is left but the reachable ones.
pub sweep-removes :
    (env : SweepEnvironment) (runs : List SweptRun) (w w' : World Files) (summary : GcSummary)
    (reachable : List Text) (k : Text)
    → Assoc.IsSorted w.files
    → reachable_objects runs w.files ≡ ok reachable
    → sweep_unreachable_objects env false runs w ≡ (ok summary, w')
    → in_objects k ≡ true
    → contains reachable k ≡ false
    → Assoc.get k w'.files ≡ none
unfolding sweep_unreachable_objects
sweep-removes env runs w w' summary reachable k sorted e returns inside unreached =
    (subst
      (λ (r : RlabResult GcSummary × World Files).
        Post (λ _ f. Gone env k f) (λ _. Unit {0}) r.0 r.1.files)
      (sym (ap after e) ∙ returns)
      ((remove_unreachable_files-removes env k reachable inside unreached (empty_summary false)).at
        w sorted)).1
  where
    after : RlabResult (List Text) → RlabResult GcSummary × World Files
    after r =
        next (r, w)
          (λ reachable. remove_unreachable_files env false reachable (empty_summary false))
