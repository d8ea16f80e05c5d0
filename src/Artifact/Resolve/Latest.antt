-- ===== src/Artifact/Resolve/Latest.antt =====
-- That a reference to a run leads to the newest completed run that it fits.
use research_lab.Prelude.{
  true, Option, none, some, List, [], ◌∷◌, Any, All, Member, Member-keep_if, keep_if, ◌≡◌, ◌↔◌, inl,
  inr, refl, sym, subst, ◌∙◌, ap, arith,
}
use research_lab.Prelude.Text.{Text, text_eq_iff, split_once}
use research_lab.Prelude.Outcome.{RlabResult, RlabError, ok, err, ok_or, ◌>>=◌}
use research_lab.Prelude.Sorting.{IsLe, max_by_key, max_by_key-IsMax, max_by_key-none}
use research_lab.Run.State.{RunStatus, completed}
use research_lab.Run.Files.{RunDirectory}
use research_lab.Run.Query.{RunSummary, run_summary, Serde, Disk, list_runs}
use research_lab.Run.Query.Listed.{IsRunAt, Summarizes, IsListing, list_runs-Member}
use research_lab.Artifact.Resolve.{
  is_completed, split_suffix, rest_of, matches_target, push_suffix, resolve_run_reference,
}

module _ (serde : Serde) (disk : Disk) (runs_dir kind name : Text)
    (entries : List (RlabResult Text)) where
  -- A completed run of the directory with the kind and name, at the path.
  abbrev pub IsCandidate : Text → RunDirectory → Type 0
  IsCandidate path d =
      Any (IsRunAt serde disk runs_dir path d) entries
      × (d.operation ≡ kind)
      × (d.name ≡ name)
      × (d.status ≡ completed)

  -- Of the candidates the one at the path has the largest identifier.
  abbrev pub IsLatest : Text → Type 0
  IsLatest path =
      (d : RunDirectory) × IsCandidate path d
      × ((other : Text) (o : RunDirectory) → IsCandidate other o → IsLe o.id d.id)

  completed_status : (s : RunStatus) → is_completed s ≡ true → s ≡ completed
  completed_status RunStatus.completed e = refl
  completed_status RunStatus.created e = cc
  completed_status RunStatus.planned e = cc
  completed_status RunStatus.running e = cc
  completed_status RunStatus.failed e = cc
  completed_status RunStatus.cancelled e = cc
  completed_status RunStatus.stale e = cc
  completed_status RunStatus.reproduced e = cc

  matches_lem :
      (s : RunSummary)
      → (matches_target kind name s ≡ true)
        ↔ ((s.operation ≡ kind) × (s.name ≡ name) × (s.status ≡ completed))
  unfolding matches_target
  matches_lem s = (
    λ e. (
      (text_eq_iff s.operation kind).0 (ground arith),
      (text_eq_iff s.name name).0 (ground arith),
      completed_status s.status (ground arith),
    ),
    λ (a, b, c). rw ((text_eq_iff s.operation kind).1 a, (text_eq_iff s.name name).1 b, c) refl,
  )

  lookup :
      (s : RunSummary)
      → Any (Summarizes serde disk runs_dir s) entries
      → (path : Text) × (d : RunDirectory) × Any (IsRunAt serde disk runs_dir path d) entries
        × (s ≡ run_summary d path)
  lookup s = go entries
    where
      go :
          (es : List (RlabResult Text))
          → Any (Summarizes serde disk runs_dir s) es
          → (path : Text) × (d : RunDirectory) × Any (IsRunAt serde disk runs_dir path d) es
            × (s ≡ run_summary d path)
      go [] m = absurd m
      go (e ∷ es) (inl (path, d, at, same)) = (path, d, inl at, same)
      go (e ∷ es) (inr m) = let (path, d, at, same) = go es m in (path, d, inr at, same)

  summarized :
      (path : Text) (d : RunDirectory) (es : List (RlabResult Text))
      → Any (IsRunAt serde disk runs_dir path d) es
      → Any (Summarizes serde disk runs_dir (run_summary d path)) es
  summarized path d [] m = absurd m
  summarized path d (e ∷ es) (inl at) = inl (path, d, at, refl)
  summarized path d (e ∷ es) (inr m) = inr (summarized path d es m)

  All-Member :
      (P : RunSummary → Type 0) (s : RunSummary) (xs : List RunSummary)
      → Member s xs
      → All P xs
      → P s
  All-Member P s [] m h = absurd m
  All-Member P s (x ∷ xs) (inl e) h = subst P (sym e) h.0
  All-Member P s (x ∷ xs) (inr m) h = All-Member P s xs m h.1

  pub newest-IsLatest :
      (runs : List RunSummary) (latest : RunSummary)
      → IsListing serde disk runs_dir entries (disk.entries runs_dir)
      → list_runs serde disk runs_dir ≡ ok runs
      → max_by_key (λ run. run.id) (keep_if (matches_target kind name) runs) ≡ some latest
      → IsLatest latest.path
  newest-IsLatest runs latest l listed found =
      let kept = keep_if (matches_target kind name) runs in
      let (m, above) = max_by_key-IsMax (λ run. run.id) latest kept found in
      let (at, fits) = (Member-keep_if latest (matches_target kind name) runs).0 m in
      let members = list_runs-Member serde disk runs_dir latest entries runs l listed in
      let (path, d, run_at, same) = lookup latest (members.0 at) in
      let (a, b, c) = (matches_lem latest).0 fits in
      let path_same : path ≡ latest.path = ap (λ s. s.path) (sym same) in
      (
        d,
        (
          subst (λ p. Any (IsRunAt serde disk runs_dir p d) entries) path_same run_at,
          ap (λ s. s.operation) (sym same) ∙ a,
          ap (λ s. s.name) (sym same) ∙ b,
          ap (λ s. s.status) (sym same) ∙ c,
        ),
        λ other o (o_at, oa, ob, oc).
            let s = run_summary o other in
            let o_members = list_runs-Member serde disk runs_dir s entries runs l listed in
            let in_runs = o_members.1 (summarized other o entries o_at) in
            let in_kept =
              (Member-keep_if s (matches_target kind name) runs).1
                (in_runs, (matches_lem s).1 (oa, ob, oc)) in
            subst (λ i. IsLe o.id i) (ap (λ s. s.id) same)
              (All-Member (λ r. IsLe r.id latest.id) s kept in_kept above),
      )

  -- No run of the directory fits.
  abbrev pub NoCandidate : Type 0
  NoCandidate = (path : Text) (d : RunDirectory) → IsCandidate path d → ⊥

  newest-none :
      (runs : List RunSummary)
      → IsListing serde disk runs_dir entries (disk.entries runs_dir)
      → list_runs serde disk runs_dir ≡ ok runs
      → max_by_key (λ run. run.id) (keep_if (matches_target kind name) runs) ≡ none
      → NoCandidate
  newest-none runs l listed gone path d (at, a, b, c) =
      let s = run_summary d path in
      let members = list_runs-Member serde disk runs_dir s entries runs l listed in
      let in_kept =
        (Member-keep_if s (matches_target kind name) runs).1
          (members.1 (summarized path d entries at), (matches_lem s).1 (a, b, c)) in
      let kept = keep_if (matches_target kind name) runs in
      subst (Member s) (max_by_key-none (λ run. run.id) kept gone) in_kept

  -- The path of the latest run with the suffix, or an error where none fits.
  abbrev pub Resolves : Option Text → RlabResult Text → Type 0
  Resolves suffix (ok path) =
      (run_path : Text) × IsLatest run_path × (path ≡ push_suffix run_path suffix)
  Resolves suffix (err e) = NoCandidate

  newest-Resolves :
      (suffix : Option Text) (x : RlabError) (runs : List RunSummary) (o : Option RunSummary)
      → IsListing serde disk runs_dir entries (disk.entries runs_dir)
      → list_runs serde disk runs_dir ≡ ok runs
      → max_by_key (λ run. run.id) (keep_if (matches_target kind name) runs) ≡ o
      → Resolves suffix (ok_or o x >>= λ latest. ok (push_suffix latest.path suffix))
  newest-Resolves suffix x runs none l listed e = newest-none runs l listed e
  newest-Resolves suffix x runs (some latest) l listed e =
      (latest.path, newest-IsLatest runs latest l listed e, refl)

-- A reference to a run, in a directory of runs that can be listed, leads to the completed run of that
-- kind and name with the largest identifier, with the suffix if there is one; and it is refused
-- exactly when no completed run of the directory has that kind and name.
pub resolve_run_reference-Resolves :
    (serde : Serde) (disk : Disk) (runs_dir reference kind name : Text)
    (entries : List (RlabResult Text)) (runs : List RunSummary)
    → split_once b':' (split_suffix (rest_of reference)).0 ≡ some (kind, name)
    → IsListing serde disk runs_dir entries (disk.entries runs_dir)
    → list_runs serde disk runs_dir ≡ ok runs
    → Resolves serde disk runs_dir kind name entries
        (split_suffix (rest_of reference)).1
        (resolve_run_reference serde disk runs_dir reference)
unfolding resolve_run_reference
resolve_run_reference-Resolves serde disk runs_dir reference kind name entries runs spelled l
      listed =
    rw (spelled, listed)
      (newest-Resolves serde disk runs_dir kind name entries (split_suffix (rest_of reference)).1 _
        runs (max_by_key (λ run. run.id) (keep_if (matches_target kind name) runs)) l listed refl)
