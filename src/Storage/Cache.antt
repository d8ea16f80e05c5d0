-- ===== src/Storage/Cache.antt =====
-- `enforce_materialized_cap` of crates/rlab-core/src/artifact/gc.rs: eviction from the cache of
-- materialized trees. A removal may fail. Sizes add up to less than 2 ^ 64 bytes.
pub mod Evicted
use research_lab.Prelude.{
  ℕ, ◌+◌, ◌-◌, ◌*◌, ◌^◌, Bool, true, false, leb, ◌==◌, Option, none, some, List, [], ◌∷◌,
  if◌then◌else◌,
}
use research_lab.Prelude.Text.{Text}
use research_lab.Prelude.Outcome.{RlabError, RlabResult, ok, err, ◌>>=◌}
use research_lab.Storage.Collect.{
  GcSummary, empty_summary, Inspection, count_tree, Removal, Pruning,
}

-- A child of the cache; a time of modification that cannot be read is that of the epoch.
pub record CacheEntry : Type 0 where
  pub path : Text
  pub modified : Option ℕ
  pub tree : RlabResult Inspection

abbrev pub or_epoch : Option ℕ → ℕ
or_epoch none = 0
or_epoch (some t) = t

pub record Inspected : Type 0 where
  pub path : Text
  pub modified : ℕ
  pub tree : Inspection

-- The loop that collects the entries and their total size.
unfoldable pub collect : ℕ → List CacheEntry → RlabResult (List Inspected × ℕ)
collect total [] = ok ([], total)
collect total (e ∷ es) = do
  tree ← e.tree
  rest ← collect (total + tree.bytes) es
  ok (record { path = e.path; modified = or_epoch e.modified; tree = tree } ∷ rest.0, rest.1)

-- `sort_by_key` with the time of modification: stable, the oldest first.
unfoldable pub insert_older : Inspected → List Inspected → List Inspected
insert_older d [] = d ∷ []
insert_older d (x ∷ xs) =
    let rest = insert_older d xs in if leb d.modified x.modified then d ∷ x ∷ xs else x ∷ rest

unfoldable pub sort_oldest_first : List Inspected → List Inspected
unfolding insert_older
sort_oldest_first [] = []
sort_oldest_first (d ∷ ds) = insert_older d (sort_oldest_first ds)

-- The loop that evicts, with the paths that it removes.
unfoldable pub evict : Removal → Bool → ℕ → GcSummary → ℕ → List Inspected → Pruning
unfolding count_tree
evict removal dry_run cap s total [] = (ok s, [])
evict removal dry_run cap s total (e ∷ es) =
    let rest = evict removal dry_run cap (count_tree s e.tree) (total - e.tree.bytes) es in
    if leb total cap
    then (ok s, [])
    else if dry_run
    then rest
    else elim (removal e.path) [ some x ↦ (err x, []) | none ↦ (rest.0, e.path ∷ rest.1) ]

unfoldable pub enforce_materialized_cap :
    Removal → Option (RlabResult (List CacheEntry)) → ℕ → Bool → Pruning
unfolding collect evict sort_oldest_first
enforce_materialized_cap removal none max_gb dry_run = (ok (empty_summary dry_run), [])
enforce_materialized_cap removal (some listing) max_gb dry_run =
    if max_gb == 0
    then (ok (empty_summary dry_run), [])
    else let cap = max_gb * 1024 * 1024 * 1024 in
      elim (listing >>= collect 0) [
        | err x ↦ (err x, [])
        | ok (entries, total) ↦
            if leb total cap
            then (ok (empty_summary dry_run), [])
            else evict removal dry_run cap (empty_summary dry_run) total (sort_oldest_first entries)
      ]
