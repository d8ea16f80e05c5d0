-- ===== src/Study/Collisions.antt =====
-- When the qualification of a study is accepted.
use research_lab.Prelude.{
  Bool, false, ◌||◌, none, List, [], ◌∷◌, ◌++◌, any, All, keep_if, ◌≡◌, ◌↔◌, inl, inr, refl, arith,
  Bool-cases,
}
use research_lab.Prelude.Text.{Text, text_eq, text_eq_iff, text_cmp_eq}
use research_lab.Prelude.Outcome.{ok}
use research_lab.Prelude.Assoc.{Assoc, get, contains_key, keys}
use research_lab.Json.{Value}
use research_lab.Experiments.Matrix.{Axes}
use research_lab.Study.{collisions, variant_keys, refuse, reject_qualification_collisions}

contains_key-get {ℓ} :
    {V : Type ℓ} (k : Text) (m : Assoc V) → (contains_key k m ≡ false) ↔ (get k m ≡ none)
unfolding contains_key get
contains_key-get k [] = ground arith
contains_key-get k ((j, v) ∷ m) = ground (arith, contains_key-get k m)

any-append : (p : Text → Bool) (xs ys : List Text) → any p (xs ++ ys) ≡ (any p xs || any p ys)
any-append p [] ys = refl
any-append p (x ∷ xs) ys = ground (arith, any-append p xs ys)

any-keys : (k : Text) (m : Assoc Value) → (any (text_eq k) (keys m) ≡ false) ↔ (get k m ≡ none)
unfolding keys get
any-keys k [] = ground arith
any-keys k ((j, v) ∷ m) = ground (arith, any-keys k m, text_eq_iff k j, text_cmp_eq k j)

variants-miss :
    (k : Text) (variants : Assoc (Assoc Value))
    → (any (text_eq k) (variant_keys variants) ≡ false)
      ↔ All (λ entry. get k entry.1 ≡ none) variants
unfolding variant_keys
variants-miss k [] = ((λ e. tt), (λ h. refl))
variants-miss k ((name, over) ∷ variants) = (
  (λ e. (
    (any-keys k over).0
        (ground (arith, any-append (text_eq k) (keys over) (variant_keys variants))),
    (variants-miss k variants).0
        (ground (arith, any-append (text_eq k) (keys over) (variant_keys variants))),
  )),
  (λ h. ground (
    arith,
    any-append (text_eq k) (keys over) (variant_keys variants),
    (any-keys k over).1 h.0,
    (variants-miss k variants).1 h.1,
  )),
)

-- The key is no axis of the experiment or the study, and no variant sets it.
abbrev pub IsFree : Axes → Axes → Assoc (Assoc Value) → Text → Type 0
IsFree matrix axes variants k =
    (get k matrix ≡ none) × (get k axes ≡ none) × All (λ entry. get k entry.1 ≡ none) variants

keep_if-nil :
    {A : Type 0} (P : A → Type 0) (p : A → Bool) (xs : List A)
    → ((x : A) → (p x ≡ false) ↔ P x)
    → (keep_if p xs ≡ []) ↔ All P xs
keep_if-nil P p [] h = ((λ e. tt), (λ a. refl))
keep_if-nil P p (x ∷ xs) h = elim (Bool-cases (p x)) [
  | inl t ↦ ((λ e. absurd (ground arith)), (λ a. absurd (ground (arith, (h x).1 a.0))))
  | inr f ↦ (
    (λ e. ((h x).0 f, (keep_if-nil P p xs h).0 (rw f at e))),
    (λ a. rw f ((keep_if-nil P p xs h).1 a.1)),
  )
]

-- The parameters of a study's qualification are accepted exactly if none of them is an axis of the
-- experiment's matrix, an axis of the study or a key that a variant sets.
pub reject_qualification_collisions-eq-ok_iff :
    (name : Text) (matrix axes : Axes) (variants : Assoc (Assoc Value)) (params : Assoc Value)
    → (reject_qualification_collisions name matrix axes variants params ≡ ok tt)
      ↔ All (IsFree matrix axes variants) (keys params)
unfolding reject_qualification_collisions collisions
reject_qualification_collisions-eq-ok_iff name matrix axes variants params =
    let chosen = keep_if-nil (IsFree matrix axes variants) _ (keys params) free in
    ((λ e. chosen.0 (refuse-nil name _ e)), (λ a. nil-refuse name _ (chosen.1 a)))
  where
    free :
        (k : Text)
        → ((contains_key k matrix
              || (contains_key k axes || any (text_eq k) (variant_keys variants)))
            ≡ false)
          ↔ IsFree matrix axes variants k
    free k = (
      (λ e. (
        (contains_key-get k matrix).0 (ground arith),
        (contains_key-get k axes).0 (ground arith),
        (variants-miss k variants).0 (ground arith),
      )),
      (λ f. ground (
        arith,
        (contains_key-get k matrix).1 f.0,
        (contains_key-get k axes).1 f.1,
        (variants-miss k variants).1 f.2,
      )),
    )

    refuse-nil : (name : Text) (ks : List Text) → refuse name ks ≡ ok tt → ks ≡ []
    refuse-nil name [] e = refl
    refuse-nil name (k ∷ ks) e = ground arith

    nil-refuse : (name : Text) (ks : List Text) → ks ≡ [] → refuse name ks ≡ ok tt
    nil-refuse name [] e = refl
    nil-refuse name (k ∷ ks) e = ground arith
