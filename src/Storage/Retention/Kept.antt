-- ===== src/Storage/Retention/Kept.antt =====
-- What retention leaves of the output directories.
use research_lab.Prelude.{
  ℕ, ◌+◌, Bool, true, false, not, ◌||◌, Option, none, some, List, [], ◌∷◌, map, length, keep_if,
  ◌≡◌, ◌⊎◌, inl, inr, refl, ap, arith, Bool-cases, Option-cases, if◌then◌else◌,
}
use research_lab.Prelude.Text.{Text}
use research_lab.Prelude.Outcome.{RlabError, ok, RlabResult-cases}
use research_lab.Storage.Glob.{Bytes}
use research_lab.Storage.Retention.{
  FileSystem, FileEntry, OutputDir, Outputs, OutputRetention, RetentionReport, is_resume_only,
  strip_entries, count_file, strip_resume_only_files, strip_listed, strip_dirs, is_resume,
  add_stripped, resume_dir, find_resume_state_dirs, apply_output_retention, is_keep_all, no_globs,
  no_report,
}

-- A file that is never removed.
abbrev pub is_plain : List Bytes → FileEntry → Bool
is_plain globs e = not (is_resume_only globs e)

strip_entries-plain :
    (system : FileSystem) (path : Text) (globs : List Bytes) (dry_run : Bool) (es : List FileEntry)
    → keep_if (is_plain globs) (strip_entries system path globs dry_run es).1
      ≡ keep_if (is_plain globs) es
unfolding strip_entries
strip_entries-plain system path globs dry_run [] = refl
strip_entries-plain system path globs dry_run (e ∷ es) =
    ground (arith, strip_entries-plain system path globs dry_run es)

strip_entries-dry :
    (system : FileSystem) (path : Text) (globs : List Bytes) (es : List FileEntry)
    → (strip_entries system path globs true es).1 ≡ es
unfolding strip_entries
strip_entries-dry system path globs [] = refl
strip_entries-dry system path globs (e ∷ es) =
    ground (arith, strip_entries-dry system path globs es)

strip_entries-ok :
    (system : FileSystem) (path : Text) (globs : List Bytes) (es : List FileEntry) (n : ℕ × ℕ)
    → (strip_entries system path globs false es).0 ≡ ok n
    → ((strip_entries system path globs false es).1 ≡ keep_if (is_plain globs) es)
      × (n.0 + length (keep_if (is_plain globs) es) ≡ length es)
unfolding strip_entries count_file
strip_entries-ok system path globs [] n h = ground arith
strip_entries-ok system path globs (e ∷ es) n h =
    let rest = strip_entries-ok system path globs es in
    elim (Bool-cases (is_resume_only globs e)) [
      | inr plain ↦ let (left, count) = rest n (ground arith) in ground arith
      | inl state ↦ elim (Option-cases (system.remove_failure path e)) [
        | inr (x, fails) ↦ ground arith
        | inl removed ↦ elim (RlabResult-cases (strip_entries system path globs false es).0) [
          | inr (x, bad) ↦ ground arith
          | inl (m, good) ↦ let (left, count) = rest m good in ground arith
        ]
      ]
    ]

-- What may have become of a directory: nothing, or it was not the resumable one, the run was not a
-- rehearsal, and all files that are not resume-only are still there, in their order.
abbrev pub Spared : List Bytes → Bool → Option Text → OutputDir → OutputDir → Type 0
Spared globs dry_run resume d d' =
    (d' ≡ d)
    ⊎ ((dry_run ≡ false)
        × (is_resume resume d ≡ false)
        × (d'.path ≡ d.path)
        × (keep_if (is_plain globs) d'.entries ≡ keep_if (is_plain globs) d.entries))

abbrev pub Pointwise : (OutputDir → OutputDir → Type 0) → List OutputDir → List OutputDir → Type 0
Pointwise R [] [] = Unit
Pointwise R [] (y ∷ ys) = ⊥
Pointwise R (x ∷ xs) [] = ⊥
Pointwise R (x ∷ xs) (y ∷ ys) = R x y × Pointwise R xs ys

strip_listed-Spared :
    (system : FileSystem) (globs : List Bytes) (dry_run : Bool) (resume : Option Text)
    (d : OutputDir) (failure : Option RlabError)
    → is_resume resume d ≡ false
    → Spared globs dry_run resume d (strip_listed system globs dry_run d failure).1
unfolding strip_listed
strip_listed-Spared system globs dry_run resume d (some x) other = inl refl
strip_listed-Spared system globs true resume d none other =
    inl (ap (λ es. record d { entries = es }) (strip_entries-dry system d.path globs d.entries))
strip_listed-Spared system globs false resume d none other =
    inr (refl, other, refl, strip_entries-plain system d.path globs false d.entries)

strip-Spared :
    (system : FileSystem) (globs : List Bytes) (dry_run : Bool) (resume : Option Text)
    (d : OutputDir)
    → is_resume resume d ≡ false
    → Spared globs dry_run resume d (strip_resume_only_files system globs dry_run d).1
unfolding strip_resume_only_files
strip-Spared system globs dry_run resume d other =
    strip_listed-Spared system globs dry_run resume d (system.list_failure d.path) other

all-Spared :
    (globs : List Bytes) (dry_run : Bool) (resume : Option Text) (ds : List OutputDir)
    → Pointwise (Spared globs dry_run resume) ds ds
all-Spared globs dry_run resume [] = tt
all-Spared globs dry_run resume (d ∷ ds) = (inl refl, all-Spared globs dry_run resume ds)

strip_dirs-Spared :
    (system : FileSystem) (globs : List Bytes) (dry_run : Bool) (resume : Option Text)
    (report : RetentionReport) (ds : List OutputDir)
    → Pointwise
        (Spared globs dry_run resume)
        ds
        (strip_dirs system globs dry_run resume report ds).1
unfolding strip_dirs
strip_dirs-Spared system globs dry_run resume report [] = tt
strip_dirs-Spared system globs dry_run resume report (d ∷ ds) =
    elim (Bool-cases (is_resume resume d)) [
      | inl same ↦ rw same (inl refl, strip_dirs-Spared system globs dry_run resume report ds)
      | inr other ↦ elim (RlabResult-cases (strip_resume_only_files system globs dry_run d).0) [
        | inr (x, e) ↦
            rw (other, e)
              (strip-Spared system globs dry_run resume d other, all-Spared globs dry_run resume ds)
        | inl (n, e) ↦
            rw (other, e)
              (
                strip-Spared system globs dry_run resume d other,
                strip_dirs-Spared system globs dry_run resume (add_stripped report d.path n) ds,
              )
      ]
    ]

-- Whether it succeeds or an operation fails half-way, applying the retention policy leaves each
-- directory that holds resume-only files as it was, or it is not the resumable directory, the
-- call was no rehearsal, and every file that is not resume-only is still there.
pub apply_output_retention-Spared :
    (system : FileSystem) (outputs : Outputs) (policy : OutputRetention) (dry_run : Bool)
    (dirs : List OutputDir)
    → find_resume_state_dirs system outputs policy.resume_only_globs ≡ ok dirs
    → (no_globs policy.resume_only_globs
        || (is_keep_all policy.keep_resume_state || not outputs.is_dir))
      ≡ false
    → Pointwise
        (Spared policy.resume_only_globs dry_run (resume_dir system policy dirs))
        dirs
        (apply_output_retention system outputs policy dry_run).1
unfolding apply_output_retention
apply_output_retention-Spared system outputs policy dry_run dirs found active =
    rw (active, found)
      (strip_dirs-Spared system policy.resume_only_globs dry_run (resume_dir system policy dirs)
        no_report dirs)

-- The directory without its resume-only files, unless it is the resumable one.
abbrev pub stripped : List Bytes → Option Text → OutputDir → OutputDir
stripped globs resume d =
    if is_resume resume d then d else record d { entries = keep_if (is_plain globs) d.entries }

strip_listed-stripped :
    (system : FileSystem) (globs : List Bytes) (d : OutputDir) (failure : Option RlabError)
    (n : ℕ × ℕ)
    → (strip_listed system globs false d failure).0 ≡ ok n
    → (strip_listed system globs false d failure).1
      ≡ record d { entries = keep_if (is_plain globs) d.entries }
unfolding strip_listed
strip_listed-stripped system globs d (some x) n h = absurd (ground arith)
strip_listed-stripped system globs d none n h =
    let (left, count) = strip_entries-ok system d.path globs d.entries n h in
    ap (λ es. record d { entries = es }) left

strip-stripped :
    (system : FileSystem) (globs : List Bytes) (d : OutputDir) (n : ℕ × ℕ)
    → (strip_resume_only_files system globs false d).0 ≡ ok n
    → (strip_resume_only_files system globs false d).1
      ≡ record d { entries = keep_if (is_plain globs) d.entries }
unfolding strip_resume_only_files
strip-stripped system globs d n h =
    strip_listed-stripped system globs d (system.list_failure d.path) n h

pub strip_dirs-ok :
    (system : FileSystem) (globs : List Bytes) (resume : Option Text)
    (report final : RetentionReport) (ds : List OutputDir)
    → (strip_dirs system globs false resume report ds).0 ≡ ok final
    → (strip_dirs system globs false resume report ds).1 ≡ map (stripped globs resume) ds
unfolding strip_dirs
strip_dirs-ok system globs resume report final [] h = refl
strip_dirs-ok system globs resume report final (d ∷ ds) h = elim (Bool-cases (is_resume resume d)) [
  | inl same ↦
      rw same (ap (λ l. d ∷ l) (strip_dirs-ok system globs resume report final ds (rw same at h)))
  | inr other ↦ elim (RlabResult-cases (strip_resume_only_files system globs false d).0) [
    | inr (x, e) ↦ absurd (ground arith)
    | inl (n, e) ↦
        rw
          (
            other,
            e,
            strip-stripped system globs d n e,
            strip_dirs-ok system globs resume (add_stripped report d.path n) final ds
                (rw (other, e) at h),
          )
          refl
  ]
]
