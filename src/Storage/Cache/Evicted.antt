-- ===== src/Storage/Cache/Evicted.antt =====
-- What eviction leaves in the cache.
use research_lab.Prelude.{
  ℕ, zero, suc, ◌+◌, ◌-◌, ◌*◌, ◌≤◌, ◌<◌, false, leb, ◌==◌, some, List, [], ◌∷◌, map, take, drop,
  All, ◌≡◌, inl, inr, refl, ap, ◌∙◌, arith, Bool-cases, Option-cases,
}
use research_lab.Prelude.Text.{Text}
use research_lab.Prelude.Outcome.{ok, bind-eq-ok}
use research_lab.Storage.Collect.{GcSummary, empty_summary, Removal, count_tree}
use research_lab.Storage.Cache.{
  CacheEntry, Inspected, collect, insert_older, sort_oldest_first, evict, enforce_materialized_cap,
}

-- The bytes of the entries.
abbrev pub bytes_of : List Inspected → ℕ
bytes_of [] = 0
bytes_of (e ∷ es) = e.tree.bytes + bytes_of es

collect-bytes :
    (total : ℕ) (es : List CacheEntry) (entries : List Inspected) (sum : ℕ)
    → collect total es ≡ ok (entries, sum)
    → sum ≡ total + bytes_of entries
unfolding collect
collect-bytes total [] entries sum e = ground arith
collect-bytes total (c ∷ es) entries sum e =
    let (tree, t, e1) = bind-eq-ok c.tree _ e in
    let (rest, r, e2) = bind-eq-ok (collect (total + tree.bytes) es) _ e1 in
    let below = collect-bytes (total + tree.bytes) es rest.0 rest.1 r in ground (arith, below)

bytes_of-insert_older :
    (d : Inspected) (xs : List Inspected)
    → bytes_of (insert_older d xs) ≡ d.tree.bytes + bytes_of xs
unfolding insert_older
bytes_of-insert_older d [] = refl
bytes_of-insert_older d (x ∷ xs) = ground (arith, bytes_of-insert_older d xs)

bytes_of-sort : (ds : List Inspected) → bytes_of (sort_oldest_first ds) ≡ bytes_of ds
unfolding sort_oldest_first
bytes_of-sort [] = refl
bytes_of-sort (d ∷ ds) =
    bytes_of-insert_older d (sort_oldest_first ds) ∙ ap (λ n. d.tree.bytes + n) (bytes_of-sort ds)

-- No entry is older than one before it.
abbrev pub IsAscending : List Inspected → Type 0
IsAscending [] = Unit
IsAscending (x ∷ xs) = All (λ y. x.modified ≤ y.modified) xs × IsAscending xs

insert_older-All :
    (n : ℕ) (d : Inspected) (xs : List Inspected)
    → n ≤ d.modified
    → All (λ y. n ≤ y.modified) xs
    → All (λ y. n ≤ y.modified) (insert_older d xs)
unfolding insert_older
insert_older-All n d [] h a = (h, tt)
insert_older-All n d (x ∷ xs) h a = elim (Bool-cases (leb d.modified x.modified)) [
  | inl t ↦ rw t (h, a)
  | inr t ↦ rw t (a.0, insert_older-All n d xs h a.1)
]

All-older :
    (n m : ℕ) (xs : List Inspected)
    → n ≤ m
    → All (λ y. m ≤ y.modified) xs
    → All (λ y. n ≤ y.modified) xs
All-older n m [] h a = tt
All-older n m (x ∷ xs) h a = (omega arith, All-older n m xs h a.1)

insert_older-IsAscending :
    (d : Inspected) (xs : List Inspected) → IsAscending xs → IsAscending (insert_older d xs)
unfolding insert_older
insert_older-IsAscending d [] s = (tt, tt)
insert_older-IsAscending d (x ∷ xs) s = elim (Bool-cases (leb d.modified x.modified)) [
  | inl t ↦
      let le : d.modified ≤ x.modified = ground arith in
      rw t ((le, All-older d.modified x.modified xs le s.0), s)
  | inr t ↦
      rw t (insert_older-All x.modified d xs (ground arith) s.0, insert_older-IsAscending d xs s.1)
]

sort_oldest_first-IsAscending : (ds : List Inspected) → IsAscending (sort_oldest_first ds)
unfolding sort_oldest_first
sort_oldest_first-IsAscending [] = tt
sort_oldest_first-IsAscending (d ∷ ds) =
    insert_older-IsAscending d (sort_oldest_first ds) (sort_oldest_first-IsAscending ds)

-- An eviction of `k` entries was needed: without the last of them the rest did not fit.
abbrev pub IsNeeded : ℕ → ℕ → List Inspected → Type 0
IsNeeded limit zero entries = Unit
IsNeeded limit (suc k) entries = limit < bytes_of (drop k entries)

-- The first `k` entries are gone, what is left fits, and without the last of them it would not have.
abbrev pub Trimmed : ℕ → List Inspected → List Text → Type 0
Trimmed limit entries removed =
    (k : ℕ) × (removed ≡ map (λ e. e.path) (take k entries))
    × (bytes_of (drop k entries) ≤ limit)
    × IsNeeded limit k entries

evict-Trimmed :
    (removal : Removal) (limit : ℕ) (s final : GcSummary) (total : ℕ) (es : List Inspected)
    → total ≡ bytes_of es
    → (evict removal false limit s total es).0 ≡ ok final
    → Trimmed limit es (evict removal false limit s total es).1
unfolding evict
evict-Trimmed removal limit s final total [] e h = (0, refl, omega arith, tt)
evict-Trimmed removal limit s final total (x ∷ es) e h = elim (Bool-cases (leb total limit)) [
  | inl fits ↦ rw fits (0, refl, ground arith, tt)
  | inr over ↦ elim (Option-cases (removal x.path)) [
    | inr (y, fails) ↦ absurd (ground arith)
    | inl gone ↦
        let later =
          evict-Trimmed removal limit (count_tree s x.tree) final (total - x.tree.bytes) es
            (omega arith) (rw (over, gone) at h) in
        rw (over, gone) (one_more (ground arith) later)
  ]
]
  where
    one_more :
        limit < bytes_of (x ∷ es)
        → {removed : List Text} → Trimmed limit es removed
        → Trimmed limit (x ∷ es) (x.path ∷ removed)
    one_more over (zero, same, fits, last) = (1, ap (λ l. x.path ∷ l) same, fits, over)
    one_more over (suc k, same, fits, last) = (suc (suc k), ap (λ l. x.path ∷ l) same, fits, last)

-- Enforcing the cap on a cache that exceeds it, when it succeeds: the entries that are gone are the
-- oldest, those that are left fit under the cap, and no entry is evicted once the rest fits.
pub enforce_materialized_cap-Trimmed :
    (removal : Removal) (entries : List CacheEntry) (max_gb : ℕ) (inspected : List Inspected)
    (total : ℕ) (final : GcSummary)
    → 0 < max_gb
    → collect 0 entries ≡ ok (inspected, total)
    → (enforce_materialized_cap removal (some (ok entries)) max_gb false).0 ≡ ok final
    → IsAscending (sort_oldest_first inspected)
      × Trimmed
          (max_gb * 1024 * 1024 * 1024)
          (sort_oldest_first inspected)
          (enforce_materialized_cap removal (some (ok entries)) max_gb false).1
unfolding enforce_materialized_cap
enforce_materialized_cap-Trimmed removal entries max_gb inspected total final pos collected done =
    let limit = max_gb * 1024 * 1024 * 1024 in
    let active : (max_gb == 0) ≡ false = ground arith in
    let sum : total ≡ bytes_of (sort_oldest_first inspected) =
      omega (arith, collect-bytes 0 entries inspected total collected, bytes_of-sort inspected) in
    (
      sort_oldest_first-IsAscending inspected,
      elim (Bool-cases (leb total limit)) [
        | inl fits ↦ rw (active, collected, fits) (0, refl, ground (arith, sum), tt)
        | inr over ↦
            rw (active, collected, over)
              (evict-Trimmed removal limit (empty_summary false) final total
                (sort_oldest_first inspected) sum (rw (active, collected, over) at done))
      ],
    )
