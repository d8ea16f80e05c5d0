-- ===== src/Registry/Cache/Saved.antt =====
-- When a registry that was saved is used again.
use research_lab.Prelude.{
  ℕ, Bool, true, false, none, some, List, [], ◌∷◌, All, Member, ◌≡◌, ◌↔◌, ◌⊎◌, inl, inr, refl, sym,
  subst, ◌∙◌, arith, Bool-cases,
}
use research_lab.Prelude.Text.{Text, text_eq_iff}
use research_lab.Prelude.Outcome.{ok, bind-eq-ok}
use research_lab.Prelude.Assoc
use research_lab.Prelude.Assoc.{Assoc, get-insert_self, get-insert_ne}
use research_lab.Registry.{Registry, registry_schema_version}
use research_lab.Registry.Cache.{
  RegistryCacheKey, RegistryCache, Sources, hash_strings, hashes_from, from_registry,
  metadata_matches, is_valid_for, into_registry, used_if, load_registry_cache,
}
use research_lab.Registry.Cache.Hashes.{
  HasHash, IsCurrent, hashes_from-found, hashes_from-stored, sources_match-true,
  sources_match-holds,
}

module _ (digest : List ℕ → Text) where
  -- The keys say the same of the program, the configuration and the interpreter.
  abbrev pub Agree : RegistryCacheKey → RegistryCacheKey → Type 0
  Agree key key' =
      (key.rlab_version ≡ key'.rlab_version)
      × (key.config_hash ≡ key'.config_hash)
      × (hash_strings digest key.modules ≡ hash_strings digest key'.modules)
      × (key.python_executable ≡ key'.python_executable)
      × (key.python_version ≡ key'.python_version)
      × (key.strict_policy_hash ≡ key'.strict_policy_hash)

  -- The path is no file after, or it was among the sources before, with the same digest.
  abbrev pub IsUnchanged : Sources → Sources → RegistryCacheKey → Text → Type 0
  IsUnchanged before after key path =
      (after path ≡ none)
      ⊎ ((h : Text) × HasHash digest after path h
          × Member path key.source_paths
          × HasHash digest before path h)

  IsCurrent-IsUnchanged_iff :
      (before after : Sources) (key : RegistryCacheKey) (hashes : Assoc Text)
      → hashes_from digest before key.source_paths [] ≡ ok hashes
      → (paths : List Text)
      → All (IsCurrent digest after hashes) paths ↔ All (IsUnchanged before after key) paths
  unfolding Assoc.get
  IsCurrent-IsUnchanged_iff before after key hashes made [] = (λ h. tt, λ h. tt)
  IsCurrent-IsUnchanged_iff before after key hashes made (path ∷ paths) =
      let rest = IsCurrent-IsUnchanged_iff before after key hashes made paths in
      (
        λ (c, cs). (
          elim c [
            | inl gone ↦ inl gone
            | inr (h, t, stored) ↦
                elim (hashes_from-found digest before path h key.source_paths [] hashes made
                  stored) [ inl (k, was) ↦ inr (h, t, k, was) | inr k ↦ absurd (cc k) ]
          ],
          rest.0 cs,
        ),
        λ (c, cs). (
          elim c [
            | inl gone ↦ inl gone
            | inr (h, t, k, was) ↦ inr (
              h,
              t,
              hashes_from-stored digest before path h key.source_paths [] hashes made was (inl k),
            )
          ],
          rest.1 cs,
        ),
      )

  metadata_iff :
      (cache : RegistryCache) (key key' : RegistryCacheKey)
      → cache.rlab_version ≡ key.rlab_version
      → cache.config_hash ≡ key.config_hash
      → cache.module_hash ≡ hash_strings digest key.modules
      → cache.python_executable ≡ key.python_executable
      → cache.python_version ≡ key.python_version
      → cache.strict_policy_hash ≡ key.strict_policy_hash
      → (metadata_matches digest cache key' ≡ true) ↔ Agree key key'
  unfolding metadata_matches
  metadata_iff cache key key' e0 e1 e2 e3 e4 e5 = (
    λ m. (
      sym e0 ∙ (text_eq_iff cache.rlab_version key'.rlab_version).0 (ground arith),
      sym e1 ∙ (text_eq_iff cache.config_hash key'.config_hash).0 (ground arith),
      sym e2 ∙ (text_eq_iff cache.module_hash (hash_strings digest key'.modules)).0 (ground arith),
      sym e3 ∙ (text_eq_iff cache.python_executable key'.python_executable).0 (ground arith),
      sym e4 ∙ (text_eq_iff cache.python_version key'.python_version).0 (ground arith),
      sym e5 ∙ (text_eq_iff cache.strict_policy_hash key'.strict_policy_hash).0 (ground arith),
    ),
    λ (a0, a1, a2, a3, a4, a5).
        rw
          (
            (text_eq_iff cache.rlab_version key'.rlab_version).1 (e0 ∙ a0),
            (text_eq_iff cache.config_hash key'.config_hash).1 (e1 ∙ a1),
            (text_eq_iff cache.module_hash (hash_strings digest key'.modules)).1 (e2 ∙ a2),
            (text_eq_iff cache.python_executable key'.python_executable).1 (e3 ∙ a3),
            (text_eq_iff cache.python_version key'.python_version).1 (e4 ∙ a4),
            (text_eq_iff cache.strict_policy_hash key'.strict_policy_hash).1 (e5 ∙ a5),
          )
          refl,
  )

  -- What a cache that can be read is used for.
  used_iff :
      (cache : RegistryCache) (sources : Sources) (key : RegistryCacheKey) (g : Registry)
      → cache.schema_version ≡ registry_schema_version
      → (load_registry_cache digest (some (ok cache)) sources key ≡ ok (some g)) ↔ (
          (metadata_matches digest cache key ≡ true)
          × All (IsCurrent digest sources cache.source_hashes) key.source_paths
          × (into_registry digest cache ≡ g))
  unfolding load_registry_cache is_valid_for
  used_iff cache sources key g schema = (
    λ e.
        let (valid, f, e1) = bind-eq-ok (is_valid_for digest cache sources key) _ e in
        valid_used valid f e1,
    λ (m, current, same).
        let hit = sources_match-holds digest sources cache.source_hashes key.source_paths current in
        rw (schema, m, hit, same) refl,
  )
    where
      valid_used :
          (valid : Bool)
          → is_valid_for digest cache sources key ≡ ok valid
          → ok (used_if digest cache valid) ≡ ok (some g)
          → (metadata_matches digest cache key ≡ true)
            × All (IsCurrent digest sources cache.source_hashes) key.source_paths
            × (into_registry digest cache ≡ g)
      valid_used false f e = absurd (cc e)
      valid_used true f e = elim (Bool-cases (metadata_matches digest cache key)) [
        | inl t ↦ (
          t,
          sources_match-true digest sources cache.source_hashes key.source_paths
              (rw (is_valid_for, schema, t) at f),
          cc e,
        )
        | inr t ↦ absurd (cc (rw (is_valid_for, schema, t) at f))
      ]

-- A registry that was saved is given back later exactly when the keys agree and each source of the
-- later key that is still a file was a source before and has the digest that it had. A source that
-- was deleted since does not count.
pub saved-used_iff :
    (digest : List ℕ → Text) (before after : Sources) (registry g : Registry)
    (key key' : RegistryCacheKey) (cache : RegistryCache)
    → from_registry digest before registry key ≡ ok cache
    → (load_registry_cache digest (some (ok cache)) after key' ≡ ok (some g)) ↔ (
        Agree digest key key'
        × All (IsUnchanged digest before after key) key'.source_paths
        × (record { schema_version = registry_schema_version; records = registry.records } ≡ g))
unfolding from_registry
saved-used_iff digest before after registry g key key' cache e =
    let (hashes, made, e1) = bind-eq-ok (hashes_from digest before key.source_paths []) _ e in
    let saved : RegistryCache = record {
      schema_version = registry_schema_version;
      rlab_version = key.rlab_version;
      config_hash = key.config_hash;
      module_hash = hash_strings digest key.modules;
      source_hashes = hashes;
      python_executable = key.python_executable;
      python_version = key.python_version;
      strict_policy_hash = key.strict_policy_hash;
      records = registry.records;
    } in
    let same : saved ≡ cache = cc e1 in
    let used = used_iff digest saved after key' g refl in
    let keys = metadata_iff digest saved key key' refl refl refl refl refl refl in
    let sources = IsCurrent-IsUnchanged_iff digest before after key hashes made key'.source_paths in
    (
      λ l.
          let (m, current, r) = used.0 (
            subst (λ c. load_registry_cache digest (some (ok c)) after key' ≡ ok (some g))
              (sym same) l) in
          (keys.0 m, sources.0 current, r),
      λ (a, unchanged, r).
          subst (λ c. load_registry_cache digest (some (ok c)) after key' ≡ ok (some g)) same
            (used.1 (keys.1 a, sources.1 unchanged, r)),
    )
