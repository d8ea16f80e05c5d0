-- ===== src/Documents/Diff/Aligned.antt =====
-- Two sorted objects, each with the keys of the other, have the same keys in the same order.
use research_lab.Prelude.{◌≡◌, refl, none, some, inl, inr, Ordering, arith, sym, subst, ◌⊎◌}
use research_lab.Prelude.Text.{Text, text_cmp, text_cmp_eq, text_cmp_refl, text_cmp_flip}
use research_lab.Json.{Value, null, Fields, end, field, get_field, IsCanonicalFields, Above}
use research_lab.Json.FieldLaws.{get_field-Above, Above-lower}
use research_lab.Documents.Diff.{diff_values}

-- Each key of the left object is in the right one, with a value that does not differ.
abbrev pub Agrees : Fields → Fields → Type 0
Agrees end right = Unit
Agrees (field k v left) right =
    ((w : Value) × (get_field k right ≡ some w) × (diff_values v w ≡ null)) × Agrees left right

abbrev pub Within : Fields → Fields → Type 0
Within end left = Unit
Within (field k v right) left = ((w : Value) × (get_field k left ≡ some w)) × Within right left

-- Both objects have the same keys in the same order, with values that do not differ.
abbrev pub Aligned : Fields → Fields → Type 0
Aligned end end = Unit
Aligned (field j v left) (field k w right) = (j ≡ k) × (diff_values v w ≡ null) × Aligned left right
Aligned left right = ⊥

-- A key above all others of the right object can be dropped from it.
Agrees-drop :
    (left right : Fields) (k : Text) (w : Value)
    → Above k left
    → IsCanonicalFields left
    → Agrees left (field k w right)
    → Agrees left right
unfolding get_field
Agrees-drop end right k w a s h = tt
Agrees-drop (field j v left) right k w a s ((u, found, same), h) = (
  (u, ground (arith, text_cmp_flip j k), same),
  Agrees-drop left right k w (Above-lower k j left a s.0) s.2 h,
)

Within-drop :
    (right left : Fields) (k : Text) (w : Value)
    → Above k right
    → IsCanonicalFields right
    → Within right (field k w left)
    → Within right left
unfolding get_field
Within-drop end left k w a s h = tt
Within-drop (field j v right) left k w a s ((u, found), h) = (
  (u, ground (arith, text_cmp_flip j k)),
  Within-drop right left k w (Above-lower k j right a s.0) s.2 h,
)

Ordering-cases : (o : Ordering) → (o ≡ Ordering.lt) ⊎ (o ≡ Ordering.eq) ⊎ (o ≡ Ordering.gt)
Ordering-cases Ordering.lt = inl refl
Ordering-cases Ordering.eq = inr (inl refl)
Ordering-cases Ordering.gt = inr (inr refl)

-- A key that is missing on one side would stand before the other side's first key.
pub Aligned-lem :
    (left right : Fields)
    → IsCanonicalFields left
    → IsCanonicalFields right
    → Agrees left right
    → Within right left
    → Aligned left right
unfolding get_field
Aligned-lem end end c d h i = tt
Aligned-lem end (field k w right) c d h ((u, found), i) = cc
Aligned-lem (field j v left) end c d ((u, found, same), h) i = cc
Aligned-lem (field j v left) (field k w right) c d ((u, found, same), h) ((x, seen), i) =
    elim (Ordering-cases (text_cmp j k)) [
      | inl lt ↦
          let absent : get_field j (field k w right) ≡ none =
            get_field-Above j (field k w right) lt d in
          cc
      | inr (inl eq) ↦
          let key : j ≡ k = (text_cmp_eq j k).0 eq in
          (
            key,
            ground arith,
            Aligned-lem left right c.2 d.2
                (Agrees-drop left right k w (subst (λ z. Above z left) key c.0) c.2 h)
                (Within-drop right left j v (subst (λ z. Above z right) (sym key) d.0) d.2 i),
          )
      | inr (inr gt) ↦
          let absent : get_field k (field j v left) ≡ none =
            get_field-Above k (field j v left) ((text_cmp_flip j k).0 gt) c in
          cc
    ]

Agrees-extend :
    (left right : Fields) (k : Text) (w : Value)
    → Above k left
    → IsCanonicalFields left
    → Agrees left right
    → Agrees left (field k w right)
unfolding get_field
Agrees-extend end right k w a s h = tt
Agrees-extend (field j v left) right k w a s ((u, found, same), h) = (
  (u, ground (arith, text_cmp_flip k j, text_cmp_flip j k), same),
  Agrees-extend left right k w (Above-lower k j left a s.0) s.2 h,
)

Within-extend :
    (right left : Fields) (k : Text) (w : Value)
    → Above k right
    → IsCanonicalFields right
    → Within right left
    → Within right (field k w left)
unfolding get_field
Within-extend end left k w a s h = tt
Within-extend (field j v right) left k w a s ((u, found), h) = (
  (u, ground (arith, text_cmp_flip j k)),
  Within-extend right left k w (Above-lower k j right a s.0) s.2 h,
)

pub Aligned-Agrees :
    (left right : Fields)
    → IsCanonicalFields left
    → IsCanonicalFields right
    → Aligned left right
    → Agrees left right × Within right left
unfolding get_field
Aligned-Agrees end end c d h = (tt, tt)
Aligned-Agrees end (field k w right) c d h = absurd h
Aligned-Agrees (field j v left) end c d h = absurd h
Aligned-Agrees (field j v left) (field k w right) c d (key, same, h) =
    let (agrees, within) = Aligned-Agrees left right c.2 d.2 h in
    (
      (
        (w, ground (arith, text_cmp_refl k), same),
        Agrees-extend left right k w (subst (λ z. Above z left) key c.0) c.2 agrees,
      ),
      (
        (v, ground (arith, text_cmp_refl k)),
        Within-extend right left j v (subst (λ z. Above z right) (sym key) d.0) d.2 within,
      ),
    )
