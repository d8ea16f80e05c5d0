-- ===== src/Storage/Collect/Pruned.antt =====
-- Which runs are pruned.
use research_lab.Prelude.{
  ℕ, ◌%◌, ◌^◌, Bool, false, not, leb, ◌==◌, none, some, List, [], ◌∷◌, ◌++◌, take, drop, length,
  append_assoc, append-nil, All, Member, Member-append, ◌≡◌, inl, inr, refl, sym, subst, ◌∙◌, arith,
  if◌then◌else◌, Bool-cases, Option-cases,
}
use research_lab.Prelude.Text.{Text, text_cmp_eq, text_eq, text_eq_iff}
use research_lab.Prelude.Outcome.{ok, RlabResult-cases}
use research_lab.Prelude.Assoc.{get, get-insert, get-Entry, Entry, IsSorted, insert-IsSorted}
use research_lab.Storage.Collect.{
  RunEntry, Removal, GcSummary, Dated, Groups, Pruning, group_of, push_run, is_prunable,
  read_run_identity, group_runs, remove_runs, prune_groups, prune_runs_keep_per_experiment,
  sort_newest_first, empty_summary, count_tree,
}
use research_lab.Storage.Collect.Newest.{
  NotBelow, sort_newest_first-IsDescending, sort_newest_first-Perm, take-NotBelow, take-drop,
  length-take,
}
use mathlib.Core.List.{Perm}

-- The prunable runs of an experiment, in the order in which the directory lists them.
abbrev pub runs_named : Text → List RunEntry → List Dated
runs_named name [] = []
runs_named name (e ∷ es) =
    let rest = runs_named name es in
    if not (is_prunable e) then rest else elim (read_run_identity e) [
      | none ↦ rest
      | some (n, created_at) ↦ if text_eq name n then (created_at, e) ∷ rest else rest
    ]

group_of-push_run :
    (name n : Text) (run : Dated) (groups : Groups)
    → group_of name (push_run n run groups)
      ≡ (if text_eq name n then group_of name groups ++ run ∷ [] else group_of name groups)
unfolding push_run
group_of-push_run name n run groups = elim (Bool-cases (text_eq name n)) [
  | inl same ↦
      let e : name ≡ n = (text_eq_iff name n).0 same in
      ground (arith, get-insert name n (group_of n groups ++ run ∷ []) groups, text_cmp_eq name n)
  | inr other ↦ ground (
    arith,
    get-insert name n (group_of n groups ++ run ∷ []) groups,
    text_cmp_eq name n,
    text_eq_iff name n,
  )
]

group_of-group_runs :
    (name : Text) (groups : Groups) (es : List RunEntry)
    → group_of name (group_runs groups es) ≡ group_of name groups ++ runs_named name es
unfolding group_runs
group_of-group_runs name groups [] = sym (append-nil (group_of name groups))
group_of-group_runs name groups (e ∷ es) = elim (Bool-cases (is_prunable e)) [
  | inr plain ↦ rw plain (group_of-group_runs name groups es)
  | inl prunable ↦ elim (Option-cases (read_run_identity e)) [
    | inl nameless ↦ rw (prunable, nameless) (group_of-group_runs name groups es)
    | inr ((n, created_at), identity) ↦
        rw (prunable, identity)
          (group_of-group_runs name (push_run n (created_at, e) groups) es ∙ pushed n created_at)
  ]
]
  where
    pushed :
        (n created_at : Text)
        → group_of name (push_run n (created_at, e) groups) ++ runs_named name es
          ≡ group_of name groups
            ++ (if text_eq name n then (created_at, e) ∷ runs_named name es else runs_named name es)
    pushed n created_at = elim (Bool-cases (text_eq name n)) [
      | inl same ↦
          rw (group_of-push_run name n (created_at, e) groups, same)
            (append_assoc (group_of name groups) ((created_at, e) ∷ []) (runs_named name es))
      | inr other ↦ rw (group_of-push_run name n (created_at, e) groups, other) refl
    ]

group_runs-IsSorted :
    (groups : Groups) (es : List RunEntry) → IsSorted groups → IsSorted (group_runs groups es)
unfolding group_runs push_run
group_runs-IsSorted groups [] s = s
group_runs-IsSorted groups (e ∷ es) s = elim (Bool-cases (is_prunable e)) [
  | inr plain ↦ rw plain (group_runs-IsSorted groups es s)
  | inl prunable ↦ elim (Option-cases (read_run_identity e)) [
    | inl nameless ↦ rw (prunable, nameless) (group_runs-IsSorted groups es s)
    | inr ((n, created_at), identity) ↦
        rw (prunable, identity)
          (group_runs-IsSorted (push_run n (created_at, e) groups) es
            (insert-IsSorted n (group_of n groups ++ (created_at, e) ∷ []) groups s))
  ]
]

remove_runs-Member :
    (removal : Removal) (dry_run : Bool) (s : GcSummary) (ds : List Dated) (p : Text)
    → Member p (remove_runs removal dry_run s ds).1
    → (dry_run ≡ false) × (d : Dated) × Member d ds × (p ≡ d.1.path)
unfolding remove_runs
remove_runs-Member removal dry_run s [] p m = absurd m
remove_runs-Member removal dry_run s ((created_at, e) ∷ ds) p m = elim (RlabResult-cases e.tree) [
  | inr (x, bad) ↦ absurd (rw bad at m)
  | inl (before, good) ↦ elim (Bool-cases dry_run) [
    | inl dry ↦
        later (remove_runs-Member removal dry_run (count_tree s before) ds p (rw (good, dry) at m))
    | inr wet ↦ elim (Option-cases (removal e.path)) [
      | inr (x, fails) ↦ absurd (rw (good, wet, fails) at m)
      | inl gone ↦
          first _ wet (rw (good, wet, gone) at m)
            (remove_runs-Member removal dry_run (count_tree s before) ds p)
    ]
  ]
]
  where
    later :
        (dry_run ≡ false) × (d : Dated) × Member d ds × (p ≡ d.1.path)
        → (dry_run ≡ false) × (d : Dated) × Member d ((created_at, e) ∷ ds) × (p ≡ d.1.path)
    later (wet, d, k, same) = (wet, d, inr k, same)

    first :
        (rest : List Text)
        → dry_run ≡ false
        → Member p (e.path ∷ rest)
        → (Member p rest → (dry_run ≡ false) × (d : Dated) × Member d ds × (p ≡ d.1.path))
        → (dry_run ≡ false) × (d : Dated) × Member d ((created_at, e) ∷ ds) × (p ≡ d.1.path)
    first rest wet (inl same) ih = (wet, (created_at, e), inl refl, same)
    first rest wet (inr k) ih = later (ih k)

-- What a removed path tells: the group that it is from, which has more runs than are kept.
abbrev Removed : Bool → ℕ → Groups → Text → Type 0
Removed dry_run keep groups p =
    (dry_run ≡ false)
    × (name : Text) × (runs : List Dated) × Entry name runs groups
    × (d : Dated) × Member d (drop keep (sort_newest_first runs))
    × (p ≡ d.1.path)

Removed-later :
    (dry_run : Bool) (keep : ℕ) (name : Text) (runs : List Dated) (groups : Groups) (p : Text)
    → Removed dry_run keep groups p
    → Removed dry_run keep ((name, runs) ∷ groups) p
Removed-later dry_run keep name runs groups p (wet, n, rs, entry, d, m, same) =
    (wet, n, rs, inr entry, d, m, same)

prune_groups-Member :
    (removal : Removal) (dry_run : Bool) (keep : ℕ) (s : GcSummary) (groups : Groups) (p : Text)
    → Member p (prune_groups removal dry_run keep s groups).1
    → Removed dry_run keep groups p
unfolding prune_groups
prune_groups-Member removal dry_run keep s [] p m = absurd m
prune_groups-Member removal dry_run keep s ((name, runs) ∷ groups) p m =
    elim (Bool-cases (leb (length runs % 2 ^ 32) keep)) [
      | inl few ↦
          Removed-later dry_run keep name runs groups p
            (prune_groups-Member removal dry_run keep s groups p (rw few at m))
      | inr many ↦ elim (RlabResult-cases chosen.0) [
        | inr (x, bad) ↦ here (
            remove_runs-Member removal dry_run s (drop keep (sort_newest_first runs)) p
              (rw (many, bad) at m))
        | inl (s', good) ↦
            elim ((Member-append p chosen.1 (prune_groups removal dry_run keep s' groups).1).0
              (rw (many, good) at m)) [
                | inl k ↦
                    here (
                      remove_runs-Member removal dry_run s (drop keep (sort_newest_first runs)) p k)
                | inr k ↦
                    Removed-later dry_run keep name runs groups p
                      (prune_groups-Member removal dry_run keep s' groups p k)
              ]
      ]
    ]
  where
    chosen : Pruning
    chosen = remove_runs removal dry_run s (drop keep (sort_newest_first runs))

    here :
        (dry_run ≡ false)
          × (d : Dated) × Member d (drop keep (sort_newest_first runs))
          × (p ≡ d.1.path)
        → Removed dry_run keep ((name, runs) ∷ groups) p
    here (wet, d, k, same) = (wet, name, runs, inl (refl, refl), d, k, same)

group_of-eq :
    (name : Text) (runs : List Dated) (groups : Groups)
    → get name groups ≡ some runs
    → group_of name groups ≡ runs
group_of-eq name runs groups e = ground (arith, e)

Entry-named :
    (name : Text) (runs : List Dated) (entries : List RunEntry)
    → Entry name runs (group_runs [] entries)
    → runs ≡ runs_named name entries
unfolding get
Entry-named name runs entries entry =
    sym (
      group_of-eq name runs (group_runs [] entries)
        (get-Entry name runs (group_runs [] entries) (group_runs-IsSorted [] entries tt) entry))
    ∙ group_of-group_runs name [] entries

-- A run is removed by no rehearsal. Whether or not the pruning then succeeds as a whole, the runs
-- of its experiment that may be pruned are as many as are to be kept and others, it among the
-- others, none of which is more recent than any of the kept.
pub prune_runs-newest :
    (removal : Removal) (entries : List RunEntry) (keep : ℕ) (dry_run : Bool) (p : Text)
    → Member p (prune_runs_keep_per_experiment removal (some (ok entries)) keep dry_run).1
    → (dry_run ≡ false)
      × (name : Text) × (newest : List Dated) × (rest : List Dated) × Perm
          (newest ++ rest)
          (runs_named name entries)
      × (length newest ≡ keep)
      × All (λ x. All (NotBelow x) rest) newest
      × ((d : Dated) × Member d rest × (p ≡ d.1.path))
unfolding prune_runs_keep_per_experiment
prune_runs-newest removal entries keep dry_run p m = elim (Bool-cases (keep == 0)) [
  | inl none_kept ↦ absurd (rw none_kept at m)
  | inr some_kept ↦
      let (wet, name, runs, entry, d, k, same) =
        prune_groups-Member removal dry_run keep (empty_summary dry_run) (group_runs [] entries) p
          (rw some_kept at m) in
      let named = Entry-named name runs entries entry in
      (
        wet,
        name,
        take keep (sort_newest_first runs),
        drop keep (sort_newest_first runs),
        subst (λ l. Perm l (runs_named name entries))
            (sym (take-drop keep (sort_newest_first runs)))
            (subst (λ l. Perm (sort_newest_first runs) l) named (sort_newest_first-Perm runs)),
        length-take keep (sort_newest_first runs) d k,
        take-NotBelow keep (sort_newest_first runs) (sort_newest_first-IsDescending runs),
        (d, k, same),
      )
]
