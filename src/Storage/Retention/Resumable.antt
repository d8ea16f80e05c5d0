-- ===== src/Storage/Retention/Resumable.antt =====
-- What a retention that succeeds leaves to resume from.
use research_lab.Prelude.{
  Bool, true, false, Option, none, some, List, [], ◌∷◌, map, find, find-Member, ◌≡◌, inl, inr, refl,
  sym, ap, ◌∙◌, Member, if◌then◌else◌,
}
use research_lab.Prelude.Text.{Text, text_eq, text_eq_iff}
use research_lab.Prelude.Outcome.{ok}
use research_lab.Storage.Retention.{
  FileSystem, OutputDir, Outputs, OutputRetention, RetentionReport, keep_last, strip_dirs,
  is_resume, resume_dir, resolve_resume_dir, newest, newest_from, found_or_newest, pointed_dir,
  later_or_same, find_resume_state_dirs, apply_output_retention, is_keep_all, no_globs, no_report,
  read_resume_pointer,
}
use research_lab.Storage.Retention.Kept.{stripped, strip_dirs-ok}

Member-skip :
    (x best d : OutputDir) (ds : List OutputDir) → Member x (best ∷ ds) → Member x (best ∷ d ∷ ds)
Member-skip x best d ds (inl e) = inl e
Member-skip x best d ds (inr m) = inr (inr m)

newest_from-Member :
    (best : OutputDir) (ds : List OutputDir) → Member (newest_from best ds) (best ∷ ds)
unfolding newest_from
newest_from-Member best [] = inl refl
newest_from-Member best (d ∷ ds) =
    chosen (later_or_same best.modified d.modified) (newest_from-Member d ds)
      (Member-skip _ best d ds (newest_from-Member best ds))
  where
    chosen :
        (b : Bool)
        → Member (newest_from d ds) (d ∷ ds)
        → Member (newest_from best ds) (best ∷ d ∷ ds)
        → Member (newest_from (if b then d else best) ds) (best ∷ d ∷ ds)
    chosen true m k = inr m
    chosen false m k = k

newest-path :
    (d : OutputDir) (ds : List OutputDir)
    → (x : OutputDir) × Member x (d ∷ ds) × (newest (d ∷ ds) ≡ some x.path)
unfolding newest
newest-path d ds = (newest_from d ds, newest_from-Member d ds, refl)

found_or_newest-path :
    (p : OutputDir → Bool) (d : OutputDir) (ds : List OutputDir) (o : Option OutputDir)
    → find p (d ∷ ds) ≡ o
    → (x : OutputDir) × Member x (d ∷ ds) × (found_or_newest (d ∷ ds) o ≡ some x.path)
unfolding found_or_newest
found_or_newest-path p d ds none e = newest-path d ds
found_or_newest-path p d ds (some x) e = (x, find-Member p (d ∷ ds) e, refl)

resolve-path :
    (d : OutputDir) (ds : List OutputDir) (o : Option Text)
    → (x : OutputDir) × Member x (d ∷ ds) × (pointed_dir (d ∷ ds) o ≡ some x.path)
unfolding pointed_dir
resolve-path d ds none = newest-path d ds
resolve-path d ds (some target) =
    found_or_newest-path (λ x. text_eq x.path target) d ds
      (find (λ x. text_eq x.path target) (d ∷ ds)) refl

-- When the policy is to keep the last state and applying it succeeds, the directories that hold
-- resume-only files lose exactly those, but for one of them, which stays as it was: there is
-- always a state to resume from.
pub apply_output_retention-resumable :
    (system : FileSystem) (outputs : Outputs) (policy : OutputRetention) (d : OutputDir)
    (ds : List OutputDir) (report : RetentionReport)
    → policy.keep_resume_state ≡ keep_last
    → no_globs policy.resume_only_globs ≡ false
    → outputs.is_dir ≡ true
    → find_resume_state_dirs system outputs policy.resume_only_globs ≡ ok (d ∷ ds)
    → (apply_output_retention system outputs policy false).0 ≡ ok report
    → (x : OutputDir) × Member x (d ∷ ds)
      × (is_resume (some x.path) x ≡ true)
      × ((apply_output_retention system outputs policy false).1
          ≡ map (stripped policy.resume_only_globs (some x.path)) (d ∷ ds))
unfolding apply_output_retention resume_dir resolve_resume_dir is_resume is_keep_all
apply_output_retention-resumable system outputs policy d ds report last globs there found done =
    let (x, m, e) = resolve-path d ds (read_resume_pointer system policy.resume_pointer) in
    let resume : resume_dir system policy (d ∷ ds) ≡ some x.path = rw last e in
    let run : apply_output_retention system outputs policy false
        ≡ strip_dirs system policy.resume_only_globs false (some x.path) no_report (d ∷ ds) =
      rw (last, globs, there, found)
        (ap (λ q. strip_dirs system policy.resume_only_globs false q no_report (d ∷ ds)) resume) in
    (
      x,
      m,
      (text_eq_iff x.path x.path).1 refl,
      ap (λ r. r.1) run
          ∙ strip_dirs-ok system policy.resume_only_globs (some x.path) no_report report (d ∷ ds)
              (sym (ap (λ r. r.0) run) ∙ done),
    )
