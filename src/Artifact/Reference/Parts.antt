-- ===== src/Artifact/Reference/Parts.antt =====
-- What spells a reference, and the parsing of its parts.
use research_lab.Prelude.{
  ◌≡◌, refl, ◌↔◌, ◌⊎◌, inl, inr, false, Option, none, some, [], ◌∷◌, ◌++◌, arith, Bool-cases,
  Option-cases, ◌==◌,
}
use research_lab.Prelude.Text.{Text, txt, is_blank, has_char, split_once, starts_with}
use research_lab.Prelude.Splitting.{split_once-append, split_once-none_iff, split_once-some}
use research_lab.Prelude.Outcome.{ok, RlabError}
use research_lab.Artifact.Reference.{
  ArtifactReference, ArtifactPathReference, strip_prefix, require, parse_version, scheme,
  parse_place,
}

abbrev pub Given : Option Text → Type 0
Given none = Unit
Given (some suffix) = is_blank suffix ≡ false

-- The parts of a reference, which no separator splits further.
pub record IsReference (p : ArtifactPathReference) : Type 0 where
  pub kind_given : is_blank p.reference.kind ≡ false
  pub name_given : is_blank p.reference.name ≡ false
  pub version_given : is_blank p.reference.version ≡ false
  pub kind_at : has_char b'@' p.reference.kind ≡ false
  pub kind_slash : has_char b'/' p.reference.kind ≡ false
  pub name_at : has_char b'@' p.reference.name ≡ false
  pub version_slash : has_char b'/' p.reference.version ≡ false
  pub suffix_given : Given p.suffix

-- `kind/name`, `version/suffix` and the two together.
abbrev pub place : ArtifactReference → Text
place r = r.kind ++ b'/' ∷ r.name

abbrev pub version_text : Text → Option Text → Text
version_text version none = version
version_text version (some suffix) = version ++ b'/' ∷ suffix

abbrev pub body : ArtifactPathReference → Text
body p = place p.reference ++ b'@' ∷ version_text p.reference.version p.suffix

-- A reference with no version has the version 1, and the scheme may be left out.
abbrev pub Body : ArtifactPathReference → Text → Type 0
Body p t =
    (t ≡ body p) ⊎ ((t ≡ place p.reference) × (p.reference.version ≡ txt "1") × (p.suffix ≡ none))

abbrev pub Spells : ArtifactPathReference → Text → Type 0
Spells p value =
    ((t : Text) × (value ≡ scheme ++ t) × Body p t)
    ⊎ ((starts_with scheme value ≡ false) × Body p value)

pub strip_prefix-cases :
    (p value : Text)
    → ((t : Text) × (value ≡ p ++ t) × (strip_prefix p value ≡ some t))
      ⊎ ((starts_with p value ≡ false) × (strip_prefix p value ≡ none))
unfolding strip_prefix starts_with
strip_prefix-cases [] value = inl (value, refl, refl)
strip_prefix-cases (c ∷ p) [] = inr (refl, refl)
strip_prefix-cases (c ∷ p) (d ∷ value) = elim (Bool-cases (c == d)) [
  | inl same ↦ elim (strip_prefix-cases p value) [
    | inl (t, e, f) ↦ inl (t, ground arith, ground arith)
    | inr (s, f) ↦ inr (ground arith, ground arith)
  ]
  | inr other ↦ inr (ground arith, ground arith)
]

pub strip_prefix-append : (p t : Text) → strip_prefix p (p ++ t) ≡ some t
unfolding strip_prefix
strip_prefix-append [] t = refl
strip_prefix-append (c ∷ p) t = ground (arith, strip_prefix-append p t)

pub ok-injective : {p q : ArtifactPathReference} → ok p ≡ ok q → p ≡ q
ok-injective h = cc

pub require_iff :
    (t : Text) (e : RlabError) (u : Text)
    → (require (some t) e ≡ ok u) ↔ ((t ≡ u) × (is_blank t ≡ false))
unfolding require
require_iff t e u = elim (Bool-cases (is_blank t)) [
  | inl blank ↦ ((λ h. ground arith), (λ h. ground arith))
  | inr given ↦ ((λ h. (ground arith, given)), (λ h. ground arith))
]

pub parse_version-eq-ok :
    (value t version : Text) (suffix : Option Text)
    → parse_version value t ≡ ok (version, suffix)
    → (t ≡ version_text version suffix)
      × (is_blank version ≡ false)
      × (has_char b'/' version ≡ false)
      × Given suffix
unfolding parse_version
parse_version-eq-ok value t version none h = elim (Option-cases (split_once b'/' t)) [
  | inl e ↦ ground (arith, split_once-none_iff b'/' t)
  | inr ((a, b), e) ↦ ground arith
]
parse_version-eq-ok value t version (some suffix) h = elim (Option-cases (split_once b'/' t)) [
  | inl e ↦ ground arith
  | inr ((a, b), e) ↦ let (text, free) = split_once-some b'/' t a b e in ground arith
]

pub parse_version-version_text :
    (value version : Text) (suffix : Option Text)
    → is_blank version ≡ false
    → has_char b'/' version ≡ false
    → Given suffix
    → parse_version value (version_text version suffix) ≡ ok (version, suffix)
unfolding parse_version
parse_version-version_text value version none v f g =
    ground (arith, split_once-none_iff b'/' version)
parse_version-version_text value version (some suffix) v f g =
    ground (arith, split_once-append b'/' version suffix f)

pub parse_place-eq-ok :
    (value left kind name : Text)
    → parse_place value left ≡ ok (kind, name)
    → (left ≡ kind ++ b'/' ∷ name)
      × (has_char b'/' kind ≡ false)
      × (is_blank kind ≡ false)
      × (is_blank name ≡ false)
unfolding parse_place require
parse_place-eq-ok value left kind name h = elim (Option-cases (split_once b'/' left)) [
  | inl e ↦ ground arith
  | inr ((a, b), e) ↦ let (text, free) = split_once-some b'/' left a b e in ground arith
]

pub parse_place-place :
    (value kind name : Text)
    → has_char b'/' kind ≡ false
    → is_blank kind ≡ false
    → is_blank name ≡ false
    → parse_place value (kind ++ b'/' ∷ name) ≡ ok (kind, name)
unfolding parse_place require
parse_place-place value kind name f k n = ground (arith, split_once-append b'/' kind name f)

pub is_blank-append : (a b : Text) → is_blank a ≡ false → is_blank (a ++ b) ≡ false
unfolding is_blank
is_blank-append [] b h = cc
is_blank-append (c ∷ a) b h = ground (arith, is_blank-append a b)
