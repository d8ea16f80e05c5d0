-- ===== src/Fs/Inside.antt =====
-- That a path which is accepted stays below the root.
use research_lab.Prelude.{
  ℕ, Bool, true, false, not, ◌==◌, some, is_some, List, [], ◌∷◌, ◌++◌, any, All, append_assoc, ◌≡◌,
  ◌≢◌, inl, inr, refl, sym, ap, subst, ◌∙◌, arith, Bool-cases, Option-cases, if◌then◌else◌,
}
use research_lab.Prelude.Text.{Text, txt, text_eq, text_eq_iff, split, cons_head, starts_with}
use research_lab.Prelude.Outcome.{RlabResult, RlabError, ok, bind-eq-ok, ensure}
use research_lab.Artifact.Layout.{join}
use research_lab.Fs.{
  Component, root_dir, cur_dir, parent_dir, normal, piece, pieces, first_component, components,
  is_absolute, is_parent_component, component_eq, strip_components, absolute_without_canonicalizing,
  joined, ensure_child_path,
}

component_eq-same : (a b : Component) → component_eq a b ≡ true → a ≡ b
unfolding component_eq
component_eq-same root_dir root_dir e = refl
component_eq-same cur_dir cur_dir e = refl
component_eq-same parent_dir parent_dir e = refl
component_eq-same (normal a) (normal b) e = ap normal ((text_eq_iff a b).0 e)
component_eq-same root_dir cur_dir e = cc
component_eq-same root_dir parent_dir e = cc
component_eq-same root_dir (normal b) e = cc
component_eq-same cur_dir root_dir e = cc
component_eq-same cur_dir parent_dir e = cc
component_eq-same cur_dir (normal b) e = cc
component_eq-same parent_dir root_dir e = cc
component_eq-same parent_dir cur_dir e = cc
component_eq-same parent_dir (normal b) e = cc
component_eq-same (normal a) root_dir e = cc
component_eq-same (normal a) cur_dir e = cc
component_eq-same (normal a) parent_dir e = cc

strip_components-append :
    (base path rest : List Component) → strip_components base path ≡ some rest → path ≡ base ++ rest
unfolding strip_components
strip_components-append [] path rest e = cc
strip_components-append (b ∷ base) [] rest e = cc
strip_components-append (b ∷ base) (c ∷ path) rest e = elim (Bool-cases (component_eq b c)) [
  | inl t ↦
      let same = component_eq-same b c t in
      let tail = strip_components-append base path rest (rw t at e) in
      ap (λ x. x ∷ path) (sym same) ∙ ap (λ l. b ∷ l) tail
  | inr t ↦ absurd (cc (rw t at e))
]

split-nonempty : (t : Text) → split b'/' t ≢ []
unfolding split cons_head
split-nonempty [] e = ground arith
split-nonempty (d ∷ t) e = elim (Bool-cases (d == b'/')) [
  | inl same ↦ ground arith
  | inr other ↦ filled d (split b'/' t) (rw other at e)
]
  where
    filled : (d : ℕ) (ps : List Text) → cons_head d ps ≡ [] → ⊥
    filled d [] e = ground arith
    filled d (p ∷ ps) e = ground arith

cons_head-append :
    (d : ℕ) (xs ys : List Text) → xs ≢ [] → cons_head d (xs ++ ys) ≡ cons_head d xs ++ ys
unfolding cons_head
cons_head-append d [] ys n = absurd (n refl)
cons_head-append d (x ∷ xs) ys n = refl

split-append : (a b : Text) → split b'/' (a ++ b'/' ∷ b) ≡ split b'/' a ++ split b'/' b
unfolding split
split-append [] b = refl
split-append (d ∷ a) b = elim (Bool-cases (d == b'/')) [
  | inl same ↦ rw (split, same) (ap (λ l. [] ∷ l) (split-append a b))
  | inr other ↦
      rw (split, other)
        (ap (cons_head d) (split-append a b)
          ∙ cons_head-append d (split b'/' a) (split b'/' b) (split-nonempty a))
]

pieces-append : (xs ys : List Text) → pieces (xs ++ ys) ≡ pieces xs ++ pieces ys
unfolding pieces
pieces-append [] ys = refl
pieces-append (x ∷ xs) ys =
    ap (λ l. piece x ++ l) (pieces-append xs ys)
    ∙ sym (append_assoc (piece x) (pieces xs) (pieces ys))

-- The components in front of the pieces.
lead : Text → List Component
lead t = if starts_with (txt "/") t then root_dir ∷ [] else first_component (split b'/' t)

first_component-append :
    (xs ys : List Text) → xs ≢ [] → first_component (xs ++ ys) ≡ first_component xs
unfolding first_component
first_component-append [] ys n = absurd (n refl)
first_component-append (x ∷ xs) ys n = refl

-- A path below another that is not empty has its components and then the pieces.
below_lem :
    (c : ℕ) (base t : Text)
    → components ((c ∷ base) ++ b'/' ∷ t) ≡ components (c ∷ base) ++ pieces (split b'/' t)
unfolding components starts_with
below_lem c base t =
    let whole = split-append (c ∷ base) t in
    let front =
      ap first_component whole
      ∙ first_component-append (split b'/' (c ∷ base)) (split b'/' t) (split-nonempty (c ∷ base)) in
    let back = ap pieces whole ∙ pieces-append (split b'/' (c ∷ base)) (split b'/' t) in
    let start = starts_with (txt "/") (c ∷ base) in
    ap
      (λ l.
        (if start then root_dir ∷ [] else first_component (split b'/' ((c ∷ base) ++ b'/' ∷ t)))
        ++ l)
      back
    ∙ ap
        (λ l.
          (if start then root_dir ∷ [] else l)
          ++ (pieces (split b'/' (c ∷ base)) ++ pieces (split b'/' t)))
        front
    ∙ sym (
        append_assoc (if start then root_dir ∷ [] else first_component (split b'/' (c ∷ base)))
          (pieces (split b'/' (c ∷ base))) (pieces (split b'/' t)))

abbrev pub IsNoParent : Component → Type 0
IsNoParent c = is_parent_component c ≡ false

any-none : (cs : List Component) → any is_parent_component cs ≡ false → All IsNoParent cs
any-none [] e = tt
any-none (c ∷ cs) e = (ground arith, any-none cs (ground arith))

All-back : (xs ys : List Component) → All IsNoParent (xs ++ ys) → All IsNoParent ys
All-back [] ys h = h
All-back (x ∷ xs) ys h = All-back xs ys h.1

append_cancel : (base x y : List Component) → base ++ x ≡ base ++ y → x ≡ y
append_cancel [] x y e = e
append_cancel (b ∷ base) x y e = append_cancel base x y (ap tail e)
  where
    tail : List Component → List Component
    tail [] = []
    tail (c ∷ cs) = cs

-- The path has the components of the root, and after them none that leads up.
abbrev pub IsBelow : Text → Text → Type 0
IsBelow root path =
    (rest : List Component) × (components path ≡ components root ++ rest) × All IsNoParent rest

relative_rest :
    (root candidate : Text)
    → All IsNoParent (pieces (split b'/' candidate))
    → IsBelow root (root ++ b'/' ∷ candidate)
unfolding components split first_component pieces piece starts_with text_eq
relative_rest (c ∷ root) candidate h =
    (pieces (split b'/' candidate), below_lem c root candidate, h)
relative_rest [] candidate h = (root_dir ∷ pieces (split b'/' candidate), refl, (refl, h))

pieces_of : (t : Text) → All IsNoParent (components t) → All IsNoParent (pieces (split b'/' t))
unfolding components
pieces_of t h =
    All-back (if starts_with (txt "/") t then root_dir ∷ [] else first_component (split b'/' t))
      (pieces (split b'/' t)) h

joined_rest :
    (root candidate : Text)
    → All IsNoParent (components candidate)
    → is_some (strip_components (components root) (components (joined root candidate))) ≡ true
    → IsBelow root (joined root candidate)
unfolding joined is_absolute join
joined_rest root candidate h e = elim (Bool-cases (starts_with (txt "/") candidate)) [
  | inl t ↦
      let e' : is_some (strip_components (components root) (components candidate)) ≡ true =
        rw (joined, is_absolute, t) at e in
      elim (Option-cases (strip_components (components root) (components candidate))) [
        | inl gone ↦ absurd (cc (rw gone at e'))
        | inr (rest, left) ↦
            let shape =
              strip_components-append (components root) (components candidate) rest left in
            rw (joined, is_absolute, t)
              (rest, shape, All-back (components root) rest (subst (All IsNoParent) shape h))
      ]
  | inr t ↦ rw (joined, is_absolute, join, t) (relative_rest root candidate (pieces_of candidate h))
]

-- A path that is accepted as a child lies below the root: it has the components of the root, and after
-- them no `..`, whatever the candidate is.
pub ensure_child_path-IsBelow :
    (cwd : RlabResult Text) (root candidate path : Text)
    → ensure_child_path cwd root candidate ≡ ok path
    → (root_abs : Text) × (absolute_without_canonicalizing cwd root ≡ ok root_abs)
      × IsBelow root_abs path
unfolding ensure_child_path
ensure_child_path-IsBelow cwd root candidate path e =
    let (u, f0, e0) =
      bind-eq-ok (ensure (not (any is_parent_component (components candidate))) _) _ e in
    let (root_abs, f1, e1) = bind-eq-ok (absolute_without_canonicalizing cwd root) _ e0 in
    let (v, f2, e2) =
      bind-eq-ok
        (ensure
          (is_some
            (strip_components (components root_abs) (components (joined root_abs candidate))))
          _)
        _ e1 in
    let same : joined root_abs candidate ≡ path = cc e2 in
    let clear = any-none (components candidate) (refused _ (ensured _ _ f0)) in
    (
      root_abs,
      f1,
      subst (IsBelow root_abs) same (joined_rest root_abs candidate clear (ensured _ _ f2)),
    )
  where
    ensured : {u : Unit {0}} (b : Bool) (x : RlabError) → ensure b x ≡ ok u → b ≡ true
    ensured true x e = refl
    ensured false x e = absurd (cc e)

    refused : (b : Bool) → not b ≡ true → b ≡ false
    refused true e = cc
    refused false e = refl
