-- ===== src/Artifact/Reference/Spelling.antt =====
-- The references that parse, and what they parse to.
use research_lab.Prelude.{
  ◌≡◌, refl, sym, ap, subst, ◌∙◌, ◌↔◌, inl, inr, false, true, Option, none, some, ◌∷◌, ◌++◌, arith,
  Option-cases,
}
use research_lab.Prelude.Text.{Text, txt, is_blank, has_char, split_once, starts_with}
use research_lab.Prelude.Splitting.{
  split_once-append, split_once-none_iff, split_once-some, has_char-append, starts_with-append,
}
use research_lab.Prelude.Outcome.{RlabResult, ok, bind-eq-ok}
use research_lab.Artifact.Reference.{
  ArtifactPathReference, strip_prefix, require, parse_version, scheme, unwrap_or, pieces, invalid,
  parse_place, parse_halves, parse_parts, parse_artifact_path_reference,
}
use research_lab.Artifact.Reference.Parts.{
  Given, IsReference, place, version_text, body, Body, Spells, strip_prefix-cases,
  strip_prefix-append, ok-injective, require_iff, parse_version-eq-ok, parse_version-version_text,
  parse_place-eq-ok, parse_place-place, is_blank-append,
}

-- What the halves of a reference show.
record Halves (p : ArtifactPathReference) (left versioned : Text) : Type 0 where
  kind_given : is_blank p.reference.kind ≡ false
  name_given : is_blank p.reference.name ≡ false
  version_given : is_blank p.reference.version ≡ false
  kind_slash : has_char b'/' p.reference.kind ≡ false
  version_slash : has_char b'/' p.reference.version ≡ false
  suffix_given : Given p.suffix
  left_text : left ≡ place p.reference
  right_text : versioned ≡ version_text p.reference.version p.suffix

parse_halves-eq-ok :
    (value left versioned : Text) (p : ArtifactPathReference)
    → parse_halves value left versioned ≡ ok p
    → Halves p left versioned
unfolding parse_halves
parse_halves-eq-ok value left versioned p h =
    let (l, el, h1) = bind-eq-ok (require (some left) (invalid value)) _ h in
    let (v, ev, h2) = bind-eq-ok (parse_version value versioned) _ h1 in
    let (q, ep, h3) = bind-eq-ok (parse_place value l) _ h2 in go l v q el ev ep h3
  where
    go :
        (l : Text) (v : Text × Option Text) (q : Text × Text)
        → require (some left) (invalid value) ≡ ok l
        → parse_version value versioned ≡ ok v
        → parse_place value l ≡ ok q
        → ok (record { reference = record { kind = q.0; name = q.1; version = v.0 }; suffix = v.1 })
          ≡ ok p
        → Halves p left versioned
    go l v q el ev ep h3 =
        let (vt, v_given, v_slash, s_given) = parse_version-eq-ok value versioned v.0 v.1 ev in
        let (pt, k_slash, k_given, n_given) = parse_place-eq-ok value l q.0 q.1 ep in
        let same = ((require_iff left (invalid value) l).0 el).0 in
        subst (λ p. Halves p left versioned) (ok-injective h3)
          (record {
            kind_given = k_given;
            name_given = n_given;
            version_given = v_given;
            kind_slash = k_slash;
            version_slash = v_slash;
            suffix_given = s_given;
            left_text = same ∙ pt;
            right_text = vt;
          })

parse_halves-Halves :
    (value left versioned : Text) (p : ArtifactPathReference)
    → Halves p left versioned
    → parse_halves value left versioned ≡ ok p
unfolding parse_halves require
parse_halves-Halves value left versioned p h = ground (
  arith,
  h.left_text,
  h.right_text,
  is_blank-append p.reference.kind (b'/' ∷ p.reference.name) h.kind_given,
  parse_version-version_text value p.reference.version p.suffix h.version_given h.version_slash
      h.suffix_given,
  parse_place-place value p.reference.kind p.reference.name h.kind_slash h.kind_given h.name_given,
)

place_at :
    (p : ArtifactPathReference)
    → (has_char b'@' (place p.reference) ≡ false)
      ↔ ((has_char b'@' p.reference.kind ≡ false) × (has_char b'@' p.reference.name ≡ false))
unfolding has_char
place_at p = ground (arith, has_char-append b'@' p.reference.kind (b'/' ∷ p.reference.name))

-- The version that is taken where none is given has no slash.
default_version :
    (version : Text) (suffix : Option Text)
    → txt "1" ≡ version_text version suffix
    → (version ≡ txt "1") × (suffix ≡ none)
unfolding has_char
default_version version none h = (sym h, refl)
default_version version (some s) h = absurd (no_slash (ap (has_char b'/') h))
  where
    no_slash : has_char b'/' (txt "1") ≡ has_char b'/' (version ++ b'/' ∷ s) → ⊥
    no_slash e = ground (arith, has_char-append b'/' version (b'/' ∷ s))

abbrev parse_split : Text → Text → Option (Text × Text) → RlabResult ArtifactPathReference
parse_split value t o =
    let split = pieces t o in parse_halves value split.0 (unwrap_or split.1 (txt "1"))

-- `splitn` with and without an `@` sign.
parse_parts-unversioned :
    (value t : Text)
    → split_once b'@' t ≡ none
    → parse_parts value t ≡ parse_halves value t (txt "1")
unfolding parse_parts
parse_parts-unversioned value t e = ap (parse_split value t) e

parse_parts-versioned :
    (value t a b : Text)
    → split_once b'@' t ≡ some (a, b)
    → parse_parts value t ≡ parse_halves value a b
unfolding parse_parts
parse_parts-versioned value t a b e = ap (parse_split value t) e

parse_parts-eq-ok :
    (value t : Text) (p : ArtifactPathReference)
    → parse_parts value t ≡ ok p
    → IsReference p × Body p t
unfolding parse_parts
parse_parts-eq-ok value t p h = elim (Option-cases (split_once b'@' t)) [
  | inl e ↦
      let halves =
        parse_halves-eq-ok value t (txt "1") p (sym (parse_parts-unversioned value t e) ∙ h) in
      let free = (place_at p).0 (
        subst (λ u. has_char b'@' u ≡ false) halves.left_text ((split_once-none_iff b'@' t).0 e)) in
      let (version, suffix) = default_version _ _ halves.right_text in
      (full halves free, inr (halves.left_text, version, suffix))
  | inr ((a, b), e) ↦
      let halves = parse_halves-eq-ok value a b p (sym (parse_parts-versioned value t a b e) ∙ h) in
      let (text, at) = split_once-some b'@' t a b e in
      let free = (place_at p).0 (subst (λ u. has_char b'@' u ≡ false) halves.left_text at) in
      (
        full halves free,
        inl (
            text
            ∙ ap (λ l. l ++ b'@' ∷ b) halves.left_text
            ∙ ap (λ r. place p.reference ++ b'@' ∷ r) halves.right_text),
      )
]
  where
    full :
        {a b : Text}
        → Halves p a b
        → (has_char b'@' p.reference.kind ≡ false) × (has_char b'@' p.reference.name ≡ false)
        → IsReference p
    full halves (kind_at, name_at) = record {
      kind_given = halves.kind_given;
      name_given = halves.name_given;
      version_given = halves.version_given;
      kind_at = kind_at;
      kind_slash = halves.kind_slash;
      name_at = name_at;
      version_slash = halves.version_slash;
      suffix_given = halves.suffix_given;
    }

halves :
    {p : ArtifactPathReference} {left versioned : Text}
    → IsReference p
    → left ≡ place p.reference
    → versioned ≡ version_text p.reference.version p.suffix
    → Halves p left versioned
halves h e f = record {
  kind_given = h.kind_given;
  name_given = h.name_given;
  version_given = h.version_given;
  kind_slash = h.kind_slash;
  version_slash = h.version_slash;
  suffix_given = h.suffix_given;
  left_text = e;
  right_text = f;
}

parse_parts-Body :
    (value t : Text) (p : ArtifactPathReference)
    → IsReference p
    → Body p t
    → parse_parts value t ≡ ok p
unfolding parse_parts
parse_parts-Body value t p h (inl text) =
    let at = (place_at p).1 (h.kind_at, h.name_at) in
    let split =
      split_once-append b'@' (place p.reference) (version_text p.reference.version p.suffix) at in
    subst (λ u. parse_parts value u ≡ ok p) (sym text)
      (parse_parts-versioned value (body p) _ _ split
        ∙ parse_halves-Halves value _ _ p (halves h refl refl))
parse_parts-Body value t p h (inr (text, version, suffix)) =
    let at = (place_at p).1 (h.kind_at, h.name_at) in
    let whole = (split_once-none_iff b'@' (place p.reference)).1 at in
    subst (λ u. parse_parts value u ≡ ok p) (sym text)
      (parse_parts-unversioned value (place p.reference) whole
        ∙ parse_halves-Halves value _ _ p (
            halves h refl (
              sym
                (ap (λ v. version_text v p.suffix) version ∙ ap (version_text (txt "1")) suffix))))

mismatch : false ≡ true → ⊥
mismatch e = cc

-- A text is a reference to an artifact exactly when it spells one: after the scheme, which may be
-- left out, a kind with no slash, a slash, a name, an `@` sign, a version with no slash and, if a
-- suffix is given, a slash and the suffix. No part is blank, and neither the kind nor the name has
-- an `@` sign. Without `@` the version is 1. What is parsed is what was spelled.
pub parse_artifact_path_reference-eq-ok_iff :
    (value : Text) (p : ArtifactPathReference)
    → (parse_artifact_path_reference value ≡ ok p) ↔ (IsReference p × Spells p value)
unfolding parse_artifact_path_reference
parse_artifact_path_reference-eq-ok_iff value p = (only_if, if_so)
  where
    only_if : parse_artifact_path_reference value ≡ ok p → IsReference p × Spells p value
    only_if h = elim (strip_prefix-cases scheme value) [
      | inl (t, e, f) ↦
          let (valid, spelled) =
            parse_parts-eq-ok value t p
              (subst (λ o. parse_parts value (unwrap_or o value) ≡ ok p) f h) in
          (valid, inl (t, e, spelled))
      | inr (s, f) ↦
          let (valid, spelled) =
            parse_parts-eq-ok value value p
              (subst (λ o. parse_parts value (unwrap_or o value) ≡ ok p) f h) in
          (valid, inr (s, spelled))
    ]

    if_so : IsReference p × Spells p value → parse_artifact_path_reference value ≡ ok p
    if_so (valid, inl (t, e, spelled)) =
        let stripped =
          subst (λ v. strip_prefix scheme v ≡ some t) (sym e) (strip_prefix-append scheme t) in
        subst (λ o. parse_parts value (unwrap_or o value) ≡ ok p) (sym stripped)
          (parse_parts-Body value t p valid spelled)
    if_so (valid, inr (s, spelled)) = elim (strip_prefix-cases scheme value) [
      | inl (u, e, f) ↦
          absurd (mismatch (sym s ∙ (ap (starts_with scheme) e ∙ starts_with-append scheme u)))
      | inr (s', f) ↦
          subst (λ o. parse_parts value (unwrap_or o value) ≡ ok p) (sym f)
            (parse_parts-Body value value p valid spelled)
    ]
