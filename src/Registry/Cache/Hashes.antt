-- ===== src/Registry/Cache/Hashes.antt =====
-- What the cached hashes say of the sources.
use research_lab.Prelude.{
  ℕ, true, Option, none, some, List, [], ◌∷◌, All, Member, ◌≡◌, ◌≢◌, ◌↔◌, ◌⊎◌, inl, inr, refl, sym,
  ap, subst, ◌∙◌, arith, Option-cases, Bool-cases,
}
use research_lab.Prelude.Text.{Text, text_eq, text_eq_iff}
use research_lab.Prelude.Outcome.{RlabResult, ok, err, bind-eq-ok}
use research_lab.Prelude.Assoc
use research_lab.Prelude.Assoc.{Assoc, get-insert_self, get-insert_ne}
use research_lab.Registry.Cache.{Sources, hash_bytes, hashes_from, same_hash, sources_match}

module _ (digest : List ℕ → Text) where
  -- The file at the path can be read, and its bytes have the digest.
  abbrev pub HasHash : Sources → Text → Text → Type 0
  HasHash sources path h = (bytes : List ℕ) × (sources path ≡ some (ok bytes)) × (digest bytes ≡ h)

  hash_bytes-ok :
      (bytes : RlabResult (List ℕ)) (h : Text)
      → hash_bytes digest bytes ≡ ok h
      → (b : List ℕ) × (bytes ≡ ok b) × (digest b ≡ h)
  unfolding hash_bytes
  hash_bytes-ok (ok b) h e = (b, refl, cc e)
  hash_bytes-ok (err x) h e = absurd (cc e)

  module _ (sources : Sources) where
    pub hashes_from-found :
        (p h : Text) (paths : List Text) (acc m : Assoc Text)
        → hashes_from digest sources paths acc ≡ ok m
        → Assoc.get p m ≡ some h
        → (Member p paths × HasHash sources p h) ⊎ (Assoc.get p acc ≡ some h)
    unfolding hashes_from
    hashes_from-found p h [] acc m e g =
        let same : acc ≡ m = cc e in inr (ap (Assoc.get p) same ∙ g)
    hashes_from-found p h (q ∷ paths) acc m e g = elim (Option-cases (sources q)) [
      | inl gone ↦ elim (hashes_from-found p h paths acc m (rw (hashes_from, gone) at e) g) [
        | inl (k, t) ↦ inl (inr k, t)
        | inr k ↦ inr k
      ]
      | inr (bytes, here) ↦
          let (hq, f, e1) = bind-eq-ok (hash_bytes digest bytes) _ (rw (hashes_from, here) at e) in
          let (b, is_b, d) = hash_bytes-ok bytes hq f in
          elim (hashes_from-found p h paths (Assoc.insert q hq acc) m e1 g) [
            | inl (k, t) ↦ inl (inr k, t)
            | inr k ↦ elim (Bool-cases (text_eq p q)) [
              | inl t ↦
                  let same : p ≡ q = (text_eq_iff p q).0 t in
                  let stored : hq ≡ h = cc (
                    sym (get-insert_self q hq acc)
                    ∙ subst (λ p. Assoc.get p (Assoc.insert q hq acc) ≡ some h) same k) in
                  inl (
                    inl same,
                    subst (λ p. HasHash sources p h) (sym same)
                        (b, here ∙ ap some is_b, d ∙ stored),
                  )
              | inr t ↦
                  let other : p ≢ q = λ x. ground (arith, (text_eq_iff p q).1 x) in
                  inr (sym (get-insert_ne p q hq acc other) ∙ k)
            ]
          ]
    ]

    pub hashes_from-stored :
        (p h : Text) (paths : List Text) (acc m : Assoc Text)
        → hashes_from digest sources paths acc ≡ ok m
        → HasHash sources p h
        → Member p paths ⊎ (Assoc.get p acc ≡ some h)
        → Assoc.get p m ≡ some h
    unfolding hashes_from
    hashes_from-stored p h [] acc m e t (inl k) = absurd k
    hashes_from-stored p h [] acc m e t (inr k) =
        let same : acc ≡ m = cc e in ap (Assoc.get p) (sym same) ∙ k
    hashes_from-stored p h (q ∷ paths) acc m e t k = elim (Option-cases (sources q)) [
      | inl gone ↦ hashes_from-stored p h paths acc m (rw (hashes_from, gone) at e) t (elim k [
        | inl (inl same) ↦
            let (b, there, d) = t in absurd (cc (sym gone ∙ sym (ap sources same) ∙ there))
        | inl (inr later) ↦ inl later
        | inr stored ↦ inr stored
      ])
      | inr (bytes, here) ↦
          let (hq, f, e1) = bind-eq-ok (hash_bytes digest bytes) _ (rw (hashes_from, here) at e) in
          let (b, is_b, d) = hash_bytes-ok bytes hq f in
          let (b', there, d') = t in
          hashes_from-stored p h paths (Assoc.insert q hq acc) m e1 t
            (elim (Bool-cases (text_eq p q)) [
              | inl u ↦
                  let same : p ≡ q = (text_eq_iff p q).0 u in
                  let bytes_same : some (ok b) ≡ some (ok b') =
                    ap some (sym is_b) ∙ sym here ∙ sym (ap sources same) ∙ there in
                  let b_same : b ≡ b' = cc bytes_same in
                  inr (
                    subst (λ p. Assoc.get p (Assoc.insert q hq acc) ≡ some h) (sym same)
                      (get-insert_self q hq acc ∙ ap some (sym d ∙ ap digest b_same ∙ d')))
              | inr u ↦
                  let other : p ≢ q = λ x. ground (arith, (text_eq_iff p q).1 x) in
                  elim k [
                    | inl (inl same) ↦ absurd (other same)
                    | inl (inr later) ↦ inl later
                    | inr stored ↦ inr (get-insert_ne p q hq acc other ∙ stored)
                  ]
            ])
    ]

    -- The source is no file now, or has the hash that is cached for it.
    abbrev pub IsCurrent : Assoc Text → Text → Type 0
    IsCurrent cached path =
        (sources path ≡ none)
        ⊎ ((h : Text) × HasHash sources path h × (Assoc.get path cached ≡ some h))

    same_hash_iff :
        (o : Option Text) (current : Text)
        → (same_hash digest o current ≡ true) ↔ (o ≡ some current)
    same_hash_iff none current = (λ e. absurd (cc e), λ e. absurd (cc e))
    same_hash_iff (some cached) current = (
      λ e. ap some ((text_eq_iff cached current).0 e),
      λ e. (text_eq_iff cached current).1 (cc e),
    )

    pub sources_match-true :
        (cached : Assoc Text) (paths : List Text)
        → sources_match digest cached sources paths ≡ ok true
        → All (IsCurrent cached) paths
    unfolding sources_match
    sources_match-true cached [] e = tt
    sources_match-true cached (path ∷ paths) e = elim (Option-cases (sources path)) [
      | inl gone ↦ (inl gone, sources_match-true cached paths (rw (sources_match, gone) at e))
      | inr (bytes, here) ↦
          let (h, f, e1) = bind-eq-ok (hash_bytes digest bytes) _ (rw (sources_match, here) at e) in
          let (b, is_b, d) = hash_bytes-ok bytes h f in
          elim (Bool-cases (same_hash digest (Assoc.get path cached) h)) [
            | inl t ↦ (
              inr (h, (b, here ∙ ap some is_b, d), (same_hash_iff (Assoc.get path cached) h).0 t),
              sources_match-true cached paths (rw t at e1),
            )
            | inr t ↦ absurd (cc (rw t at e1))
          ]
    ]

    pub sources_match-holds :
        (cached : Assoc Text) (paths : List Text)
        → All (IsCurrent cached) paths
        → sources_match digest cached sources paths ≡ ok true
    unfolding sources_match hash_bytes
    sources_match-holds cached [] h = refl
    sources_match-holds cached (path ∷ paths) (inl gone, rest) =
        rw (sources_match, gone) (sources_match-holds cached paths rest)
    sources_match-holds cached (path ∷ paths) (inr (h, (b, there, d), stored), rest) =
        let hit : same_hash digest (Assoc.get path cached) (digest b) ≡ true =
          (same_hash_iff (Assoc.get path cached) (digest b)).1 (stored ∙ ap some (sym d)) in
        rw (sources_match, there, hash_bytes, hit) (sources_match-holds cached paths rest)
