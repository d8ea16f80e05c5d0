-- ===== src/Experiments/Matrix/Usable.antt =====
-- Which axes `validate_axes` of crates/rlab-core/src/experiments/matrix.rs takes.
use research_lab.Prelude.{
  ◌<◌, length, true, false, List, [], ◌∷◌, ◌++◌, ◌≡◌, ◌⊎◌, inl, inr, refl, ap, arith, Bool-cases,
  All,
}
use research_lab.Prelude.Text.{Text, txt, is_blank}
use research_lab.Prelude.Outcome.{RlabError, ok, err, validation, format}
use research_lab.Json.{Value}
use research_lab.Experiments.Matrix.{Axes, validate_axes, validate_axis}

abbrev pub IsUsable : Text × List Value → Type 0
IsUsable (name, values) = (is_blank name ≡ false) × (0 < length values)

-- Why an axis is refused.
abbrev Reason : Text → List Value → RlabError → Type 0
Reason name values e =
    ((is_blank name ≡ true)
      × (e ≡ validation (format "{} axis name cannot be empty" (txt "matrix" ∷ []))))
    ⊎ ((is_blank name ≡ false)
        × (values ≡ [])
        × (e ≡ validation (format "matrix axis {} has no values" (name ∷ []))))

-- The first axis that is not usable, and what it is refused with.
abbrev pub Refused : Axes → RlabError → Type 0
Refused axes e =
    (before : Axes) × (after : Axes) × (name : Text) × (values : List Value) × (axes
      ≡ before ++ (name, values) ∷ after)
    × All IsUsable before
    × Reason name values e

validate_axis_lem :
    (name : Text) (values : List Value)
    → ((validate_axis (name, values) ≡ ok tt) × IsUsable (name, values))
      ⊎ ((e : RlabError) × (validate_axis (name, values) ≡ err e) × Reason name values e)
unfolding validate_axis
validate_axis_lem name [] = elim (Bool-cases (is_blank name)) [
  | inl t ↦ inr (_, rw t refl, inl (t, refl))
  | inr f ↦ inr (_, rw f refl, inr (f, refl, refl))
]
validate_axis_lem name (v ∷ vs) = elim (Bool-cases (is_blank name)) [
  | inl t ↦ inr (_, rw t refl, inl (t, refl))
  | inr f ↦ inl (rw f refl, (f, omega arith))
]

pub validate_axes_lem :
    (axes : Axes)
    → ((validate_axes axes ≡ ok tt) × All IsUsable axes)
      ⊎ ((e : RlabError) × (validate_axes axes ≡ err e) × Refused axes e)
unfolding validate_axes
validate_axes_lem [] = inl (refl, tt)
validate_axes_lem ((name, values) ∷ axes) = elim (validate_axis_lem name values) [
  | inr (e, here, why) ↦ inr (e, rw here refl, ([], axes, name, values, refl, tt, why))
  | inl (here, usable) ↦ elim (validate_axes_lem axes) [
    | inl (later, all) ↦ inl (rw here later, (usable, all))
    | inr (e, later, (before, after, n, vs, split, all, why)) ↦ inr (
      e,
      rw here later,
      (
        (name, values) ∷ before,
        after,
        n,
        vs,
        ap (λ l. (name, values) ∷ l) split,
        (usable, all),
        why,
      ),
    )
  ]
]

pub full_axes : (axes : Axes) → All IsUsable axes → All (λ (axis, values). 0 < length values) axes
full_axes [] usable = tt
full_axes (axis ∷ axes) usable = (usable.0.1, full_axes axes usable.1)
