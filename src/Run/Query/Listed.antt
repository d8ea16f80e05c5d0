-- ===== src/Run/Query/Listed.antt =====
-- Which runs a listing has.
use research_lab.Prelude.{
  Bool, true, false, Option, none, some, List, [], ◌∷◌, Any, Member, ◌≡◌, ◌↔◌, ◌⊎◌, inl, inr, refl,
  sym, subst, ◌∙◌, if◌then◌else◌,
}
use research_lab.Prelude.Text.{Text}
use research_lab.Prelude.Outcome.{RlabResult, ok, err, bind-eq-ok}
use research_lab.Prelude.Sorting.{sort_by, Member-sort_by}
use research_lab.Artifact.Layout.{join}
use research_lab.Run.Files.{RunDirectory}
use research_lab.Run.Query.{
  RunSummary, run_summary, Serde, Disk, read_run, push_run_summary_if_valid, summaries_of,
  list_runs, list_entries, sort_runs_newest_first, older,
}

module _ (serde : Serde) (disk : Disk) (runs_dir : Text) where
  -- The entry is a directory with the manifest of a run.
  abbrev pub IsRunAt : Text → RunDirectory → RlabResult Text → Type 0
  IsRunAt path d entry =
      (name : Text) × (entry ≡ ok name)
      × (path ≡ join runs_dir name)
      × (disk.is_dir path ≡ true)
      × (read_run serde disk path ≡ ok d)

  -- The summary is that of one of the entries.
  abbrev pub Summarizes : RunSummary → RlabResult Text → Type 0
  Summarizes s entry =
      (path : Text) × (d : RunDirectory) × IsRunAt path d entry × (s ≡ run_summary d path)

  push-Member :
      (s : RunSummary) (name : Text) (rest : List RunSummary)
      → Member s (
          if disk.is_dir (join runs_dir name)
          then push_run_summary_if_valid
              (read_run serde disk (join runs_dir name))
              (join runs_dir name)
              rest
          else rest)
        ↔ (Summarizes s (ok name) ⊎ Member s rest)
  unfolding push_run_summary_if_valid
  push-Member s name rest = by (disk.is_dir path) refl (read_run serde disk path) refl
    where
      path : Text
      path = join runs_dir name

      by :
          (b : Bool)
          → disk.is_dir path ≡ b
          → (r : RlabResult RunDirectory) → read_run serde disk path ≡ r
          → Member s (if b then push_run_summary_if_valid r path rest else rest)
            ↔ (Summarizes s (ok name) ⊎ Member s rest)
      by true t (ok d) e = (
        λ m. elim m [ inl k ↦ inl (path, d, (name, refl, refl, t, e), k) | inr k ↦ inr k ],
        λ m. elim m [
          | inl (p, d', (n, is_n, is_p, dir, read), k) ↦
              let same : n ≡ name = sym (cc is_n) in
              let there : p ≡ path = subst (λ n. p ≡ join runs_dir n) same is_p in
              let read' : read_run serde disk path ≡ ok d' =
                subst (λ p. read_run serde disk p ≡ ok d') there read in
              let same_d : d' ≡ d = cc (sym read' ∙ e) in
              inl (
                subst (λ d. s ≡ run_summary d path) same_d
                  (subst (λ p. s ≡ run_summary d' p) there k))
          | inr k ↦ inr k
        ],
      )
      by true t (err x) e = (
        λ m. inr m,
        λ m. elim m [
          | inl (p, d', (n, is_n, is_p, dir, read), k) ↦
              let same : n ≡ name = sym (cc is_n) in
              let there : p ≡ path = subst (λ n. p ≡ join runs_dir n) same is_p in
              let read' : read_run serde disk path ≡ ok d' =
                subst (λ p. read_run serde disk p ≡ ok d') there read in
              absurd (cc (sym read' ∙ e))
          | inr k ↦ k
        ],
      )
      by false t r e = (
        λ m. inr m,
        λ m. elim m [
          | inl (p, d', (n, is_n, is_p, dir, read), k) ↦
              let same : n ≡ name = sym (cc is_n) in
              let there : p ≡ path = subst (λ n. p ≡ join runs_dir n) same is_p in
              let dir' : disk.is_dir path ≡ true = subst (λ p. disk.is_dir p ≡ true) there dir in
              absurd (cc (sym dir' ∙ t))
          | inr k ↦ k
        ],
      )

  summaries_of-Member :
      (s : RunSummary) (entries : List (RlabResult Text)) (rs : List RunSummary)
      → summaries_of serde disk runs_dir entries ≡ ok rs
      → Member s rs ↔ Any (Summarizes s) entries
  unfolding summaries_of
  summaries_of-Member s [] rs e =
      let same : [] ≡ rs = cc e in (λ m. subst (Member s) (sym same) m, λ m. absurd m)
  summaries_of-Member s (err x ∷ entries) rs e = absurd (cc e)
  summaries_of-Member s (ok name ∷ entries) rs e =
      let (rest, f, e1) = bind-eq-ok (summaries_of serde disk runs_dir entries) _ e in
      let path = join runs_dir name in
      let same : (if disk.is_dir path
            then push_run_summary_if_valid (read_run serde disk path) path rest
            else rest)
          ≡ rs =
        cc e1 in
      let here = push-Member s name rest in
      let later = summaries_of-Member s entries rest f in
      (
        λ m. elim (here.0 (subst (Member s) (sym same) m)) [
          | inl k ↦ inl k
          | inr k ↦ inr (later.0 k)
        ],
        λ m. subst (Member s) same (here.1 (elim m [ inl k ↦ inl k | inr k ↦ inr (later.1 k) ])),
      )

  -- The entries are those of the directory, none if it is not there.
  abbrev pub IsListing :
      List (RlabResult Text) → Option (RlabResult (List (RlabResult Text))) → Type 0
  IsListing entries none = entries ≡ []
  IsListing entries (some listing) = listing ≡ ok entries

  list_entries-Member :
      (s : RunSummary) (entries : List (RlabResult Text)) (rs : List RunSummary)
      (o : Option (RlabResult (List (RlabResult Text))))
      → IsListing entries o
      → list_entries serde disk runs_dir o ≡ ok rs
      → Member s rs ↔ Any (Summarizes s) entries
  unfolding list_entries sort_runs_newest_first
  list_entries-Member s entries rs none l e =
      let same : [] ≡ rs = cc e in
      (λ m. absurd (subst (Member s) (sym same) m), λ m. absurd (subst (Any (Summarizes s)) l m))
  list_entries-Member s entries rs (some (err x)) l e = absurd (cc l)
  list_entries-Member s entries rs (some (ok es)) l e =
      let given : es ≡ entries = cc l in
      let (runs, f, e1) = bind-eq-ok (summaries_of serde disk runs_dir es) _ e in
      let same : sort_by older runs ≡ rs = cc e1 in
      let sorted = Member-sort_by older s runs in
      let listed = summaries_of-Member s es runs f in
      (
        λ m. subst (Any (Summarizes s)) given (listed.0 (sorted.0 (subst (Member s) (sym same) m))),
        λ m. subst (Member s) same (sorted.1 (listed.1 (subst (Any (Summarizes s)) (sym given) m))),
      )

  -- A listing has the runs of the directory, each by the summary of its manifest, and passes over all
  -- that is no run.
  pub list_runs-Member :
      (s : RunSummary) (entries : List (RlabResult Text)) (rs : List RunSummary)
      → IsListing entries (disk.entries runs_dir)
      → list_runs serde disk runs_dir ≡ ok rs
      → Member s rs ↔ Any (Summarizes s) entries
  unfolding list_runs
  list_runs-Member s entries rs l e = list_entries-Member s entries rs (disk.entries runs_dir) l e
