-- ===== src/Prelude/Lists.antt =====
-- Lists measured and indexed by native numbers, and predicates on their elements.
use Prim.Native.Nat.{ℕ, zero, suc, ◌+◌, ◌<◌}
use mathlib.Core.Path.{◌≡◌, refl, sym, ap, subst, ◌∙◌}
use mathlib.Core.Logic.{◌↔◌, ◌⊎◌, inl, inr}
use mathlib.Core.Bool.{Bool, true, false, ◌&&◌, ◌||◌}
use mathlib.Core.List.{List, [], ◌∷◌, ◌++◌, map}
use mathlib.Core.Option.{Option, none, some}
use native.Mathlib.Omega.{arith}
use research_lab.Prelude.Tests.{if◌then◌else◌, Bool-cases}

module _ {ℓ} {A : Type ℓ} where
  abbrev pub length : List A → ℕ
  length [] = 0
  length (x ∷ xs) = suc (length xs)

  abbrev pub get_elem? : List A → ℕ → Option A
  get_elem? [] i = none
  get_elem? (x ∷ xs) zero = some x
  get_elem? (x ∷ xs) (suc i) = get_elem? xs i

  abbrev pub take : ℕ → List A → List A
  take zero xs = []
  take (suc n) [] = []
  take (suc n) (x ∷ xs) = x ∷ take n xs

  abbrev pub drop : ℕ → List A → List A
  drop zero xs = xs
  drop (suc n) [] = []
  drop (suc n) (x ∷ xs) = drop n xs

  -- `Iterator::filter`, `any` and `all` with a Boolean test.
  abbrev pub keep_if : (A → Bool) → List A → List A
  keep_if p [] = []
  keep_if p (x ∷ xs) = let rest = keep_if p xs in if p x then x ∷ rest else rest

  abbrev pub any : (A → Bool) → List A → Bool
  any p [] = false
  any p (x ∷ xs) = p x || any p xs

  abbrev pub all : (A → Bool) → List A → Bool
  all p [] = true
  all p (x ∷ xs) = p x && all p xs

  -- `Iterator::find`
  abbrev pub find : (A → Bool) → List A → Option A
  find p [] = none
  find p (x ∷ xs) = let rest = find p xs in if p x then some x else rest

  abbrev pub All {κ} : (A → Type κ) → List A → Type κ
  All P [] = Unit
  All P (x ∷ xs) = P x × All P xs

  -- One element has the property, with its place.
  abbrev pub Any : (A → Type 0) → List A → Type 0
  Any P [] = ⊥
  Any P (x ∷ xs) = P x ⊎ Any P xs

  pub length-append : (xs ys : List A) → length (xs ++ ys) ≡ length xs + length ys
  length-append [] ys = omega arith
  length-append (x ∷ xs) ys = omega (arith, length-append xs ys)

  pub All-append {κ} : (P : A → Type κ) (xs ys : List A) → All P xs → All P ys → All P (xs ++ ys)
  All-append P [] ys hx hy = hy
  All-append P (x ∷ xs) ys hx hy = (hx.0, All-append P xs ys hx.1 hy)

  -- The elements that a Boolean test keeps pass it.
  pub keep_if-All :
      (P : A → Type 0) (p : A → Bool) (xs : List A)
      → ((x : A) → p x ≡ true → P x)
      → All P (keep_if p xs)
  keep_if-All P p [] h = tt
  keep_if-All P p (x ∷ xs) h = elim (Bool-cases (p x)) [
    | inl e ↦ rw e (h x e, keep_if-All P p xs h)
    | inr e ↦ rw e (keep_if-All P p xs h)
  ]

  pub All-keep_if : (P : A → Type 0) (p : A → Bool) (xs : List A) → All P xs → All P (keep_if p xs)
  All-keep_if P p [] h = tt
  All-keep_if P p (x ∷ xs) h = elim (Bool-cases (p x)) [
    | inl e ↦ rw e (h.0, All-keep_if P p xs h.1)
    | inr e ↦ rw e (All-keep_if P p xs h.1)
  ]

  pub find-All :
      (P : A → Type 0) (p : A → Bool) (xs : List A) {a : A} → All P xs → find p xs ≡ some a → P a
  find-All P p [] h e = cc
  find-All P p (x ∷ xs) {a} h e = elim (Bool-cases (p x)) [
    | inl t ↦ let here : some x ≡ some a = rw t at e in subst P (cc here) h.0
    | inr t ↦ find-All P p xs h.1 (rw t at e)
  ]

  pub any-Any :
      (P : A → Type 0) (p : A → Bool) (xs : List A)
      → ((x : A) → p x ≡ true → P x)
      → any p xs ≡ true
      → Any P xs
  any-Any P p [] h e = cc
  any-Any P p (x ∷ xs) h e = elim (Bool-cases (p x)) [
    | inl t ↦ inl (h x t)
    | inr t ↦ inr (any-Any P p xs h (rw t at e))
  ]

  pub all_iff : (p : A → Bool) (xs : List A) → (all p xs ≡ true) ↔ All (λ x. p x ≡ true) xs
  all_iff p [] = ((λ e. tt), (λ h. refl))
  all_iff p (x ∷ xs) =
      ((λ a. (ground arith, (all_iff p xs).0 (ground arith))), (λ h. rw h.0 ((all_iff p xs).1 h.1)))

  -- What is not found does not pass the test.
  pub find-none : (p : A → Bool) (xs : List A) → find p xs ≡ none → All (λ x. p x ≡ false) xs
  find-none p [] e = tt
  find-none p (x ∷ xs) e = elim (Bool-cases (p x)) [
    | inl t ↦ absurd (cc (rw t at e))
    | inr t ↦ (t, find-none p xs (rw t at e))
  ]

  pub find-passes : (p : A → Bool) (xs : List A) {a : A} → find p xs ≡ some a → p a ≡ true
  find-passes p [] e = cc
  find-passes p (x ∷ xs) {a} e = elim (Bool-cases (p x)) [
    | inl t ↦ let here : some x ≡ some a = rw t at e in subst (λ y. p y ≡ true) (cc here) t
    | inr t ↦ find-passes p xs (rw t at e)
  ]

  pub find-append :
      (p : A → Bool) (xs ys : List A)
      → find p (xs ++ ys) ≡ elim (find p xs) [ none ↦ find p ys | some a ↦ some a ]
  find-append p [] ys = refl
  find-append p (x ∷ xs) ys = elim (Bool-cases (p x)) [
    | inl t ↦ rw t refl
    | inr t ↦ rw t (find-append p xs ys)
  ]

module _ {ℓ κ} {A : Type ℓ} {B : Type κ} where
  pub length-map : (xs : List A) (f : A → B) → length (map f xs) ≡ length xs
  length-map [] f = refl
  length-map (x ∷ xs) f = ap suc (length-map xs f)

  pub All-map {μ} :
      (P : B → Type μ) (f : A → B) (xs : List A) → All (λ x. P (f x)) xs → All P (map f xs)
  All-map P f [] h = tt
  All-map P f (x ∷ xs) h = (h.0, All-map P f xs h.1)

  pub map-append : (f : A → B) (xs ys : List A) → map f (xs ++ ys) ≡ map f xs ++ map f ys
  map-append f [] ys = refl
  map-append f (x ∷ xs) ys = ap (λ l. f x ∷ l) (map-append f xs ys)

module _ {ℓ} {A : Type ℓ} where
  pub append_assoc : (xs ys zs : List A) → (xs ++ ys) ++ zs ≡ xs ++ (ys ++ zs)
  append_assoc [] ys zs = refl
  append_assoc (x ∷ xs) ys zs = ap (λ l. x ∷ l) (append_assoc xs ys zs)

  pub append-nil : (xs : List A) → xs ++ [] ≡ xs
  append-nil [] = refl
  append-nil (x ∷ xs) = ap (λ l. x ∷ l) (append-nil xs)

  pub get_elem?-append_left :
      (xs ys : List A) (i : ℕ) {a : A} → get_elem? xs i ≡ some a → get_elem? (xs ++ ys) i ≡ some a
  get_elem?-append_left [] ys i e = cc
  get_elem?-append_left (x ∷ xs) ys zero e = e
  get_elem?-append_left (x ∷ xs) ys (suc i) e = get_elem?-append_left xs ys i e

  pub get_elem?-append_in :
      (xs ys : List A) (i : ℕ) → i < length xs → get_elem? (xs ++ ys) i ≡ get_elem? xs i
  get_elem?-append_in [] ys i lt = absurd (omega arith)
  get_elem?-append_in (x ∷ xs) ys zero lt = refl
  get_elem?-append_in (x ∷ xs) ys (suc i) lt = get_elem?-append_in xs ys i (omega arith)

  pub get_elem?-append_right :
      (xs ys : List A) (i : ℕ) → get_elem? (xs ++ ys) (length xs + i) ≡ get_elem? ys i
  get_elem?-append_right [] ys i = ap (get_elem? ys) (omega arith)
  get_elem?-append_right (x ∷ xs) ys i =
      let place : length (x ∷ xs) + i ≡ suc (length xs + i) = omega arith in
      ap (get_elem? (x ∷ (xs ++ ys))) place ∙ get_elem?-append_right xs ys i

module _ {A : Type 0} where
  abbrev pub Member : A → List A → Type 0
  Member a [] = ⊥
  Member a (x ∷ xs) = (a ≡ x) ⊎ Member a xs

  pub Member-append : (a : A) (xs ys : List A) → Member a (xs ++ ys) ↔ (Member a xs ⊎ Member a ys)
  Member-append a [] ys = (inr, λ m. elim m [ inl n ↦ absurd n | inr n ↦ n ])
  Member-append a (x ∷ xs) ys = (
    λ m. elim m [
      | inl e ↦ inl (inl e)
      | inr n ↦ elim ((Member-append a xs ys).0 n) [ inl k ↦ inl (inr k) | inr k ↦ inr k ]
    ],
    λ m. elim m [
      | inl (inl e) ↦ inl e
      | inl (inr n) ↦ inr ((Member-append a xs ys).1 (inl n))
      | inr n ↦ inr ((Member-append a xs ys).1 (inr n))
    ],
  )

  pub find-Member : (p : A → Bool) (xs : List A) {a : A} → find p xs ≡ some a → Member a xs
  find-Member p [] e = cc
  find-Member p (x ∷ xs) {a} e = elim (Bool-cases (p x)) [
    | inl t ↦ let here : some x ≡ some a = rw t at e in inl (sym (cc here))
    | inr t ↦ inr (find-Member p xs (rw t at e))
  ]

  pub Member-keep_if :
      (a : A) (p : A → Bool) (xs : List A) → Member a (keep_if p xs) ↔ (Member a xs × (p a ≡ true))
  Member-keep_if a p [] = (λ m. absurd m, λ m. absurd m.0)
  Member-keep_if a p (x ∷ xs) = elim (Bool-cases (p x)) [
    | inl t ↦ rw t (
      λ m. elim m [
        | inl e ↦ (inl e, subst (λ y. p y ≡ true) (sym e) t)
        | inr n ↦ let (k, u) = (Member-keep_if a p xs).0 n in (inr k, u)
      ],
      λ m. elim m.0 [ inl e ↦ inl e | inr n ↦ inr ((Member-keep_if a p xs).1 (n, m.1)) ],
    )
    | inr t ↦ rw t (
      λ m. let (k, u) = (Member-keep_if a p xs).0 m in (inr k, u),
      λ m. elim m.0 [
        | inl e ↦ absurd (ground (arith, subst (λ y. p y ≡ true) e m.1))
        | inr n ↦ (Member-keep_if a p xs).1 (n, m.1)
      ],
    )
  ]
