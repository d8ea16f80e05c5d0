-- ===== src/Documents/Diff/Equal.antt =====
-- When the difference of two documents is empty.
use research_lab.Prelude.{
  ◌≡◌, refl, Bool, true, false, inl, inr, arith, Option-cases, if◌then◌else◌, ◌&&◌, ◌↔◌,
}
use research_lab.Prelude.Text.{Text, text_eq, text_eq_iff}
use research_lab.Json.{
  Value, null, bool, number, string, array, object, Fields, end, field, get_field, insert_field,
  IsCanonical, IsCanonicalFields,
}
use research_lab.Json.Equality.{value_eq}
use research_lab.Documents.Diff.{
  diff_values, diff_left, diff_right, add_difference, null_if_empty, changed_value,
  changed_with_missing_after, changed_with_missing_before,
}
use research_lab.Documents.Diff.Aligned.{Agrees, Within, Aligned, Aligned-lem, Aligned-Agrees}

insert_field_nonempty : (k : Text) (v : Value) (m : Fields) → insert_field k v m ≡ end → ⊥
unfolding insert_field
insert_field_nonempty k v end e = cc
insert_field_nonempty k v (field j w m) e = ground arith

add_difference_end :
    (k : Text) (d : Value) (acc : Fields) → add_difference k d acc ≡ end → (d ≡ null) × (acc ≡ end)
unfolding add_difference
add_difference_end k null acc e = (refl, e)
add_difference_end k (bool b) acc e = absurd (insert_field_nonempty k (bool b) acc e)
add_difference_end k (number b) acc e = absurd (insert_field_nonempty k (number b) acc e)
add_difference_end k (string b) acc e = absurd (insert_field_nonempty k (string b) acc e)
add_difference_end k (array b) acc e = absurd (insert_field_nonempty k (array b) acc e)
add_difference_end k (object b) acc e = absurd (insert_field_nonempty k (object b) acc e)

diff_right-Within :
    (right left acc : Fields) → diff_right left right acc ≡ end → (acc ≡ end) × Within right left
unfolding diff_right changed_with_missing_before changed_value
diff_right-Within end left acc e = (e, tt)
diff_right-Within (field k v right) left acc e = elim (Option-cases (get_field k left)) [
  | inl absent ↦
      let e' : diff_right left right (add_difference k (changed_with_missing_before v) acc) ≡ end =
        ground arith in
      let (more, _) = diff_right-Within right left _ e' in
      absurd (changed_nonnull v (add_difference_end k _ acc more).0)
  | inr (w, found) ↦
      let e' : diff_right left right acc ≡ end = ground arith in
      let (none_yet, within) = diff_right-Within right left acc e' in
      (none_yet, ((w, found), within))
]
  where
    changed_nonnull : (v : Value) → changed_with_missing_before v ≡ null → ⊥
    changed_nonnull v e = cc

diff_left-Agrees :
    (left right acc : Fields) → diff_left left right acc ≡ end → (acc ≡ end) × Agrees left right
unfolding diff_values changed_with_missing_after changed_value
diff_left-Agrees end right acc e = (e, tt)
diff_left-Agrees (field k v left) right acc e =
    let (more, agrees) = diff_left-Agrees left right _ e in
    let (same, none_yet) = add_difference_end k _ acc more in
    elim (Option-cases (get_field k right)) [
      | inl absent ↦ absurd (changed_nonnull v (ground arith))
      | inr (w, found) ↦ (none_yet, ((w, found, ground arith), agrees))
    ]
  where
    changed_nonnull : (v : Value) → changed_with_missing_after v ≡ null → ⊥
    changed_nonnull v e = cc

diff_right-end : (right left : Fields) → Within right left → diff_right left right end ≡ end
unfolding diff_right
diff_right-end end left h = refl
diff_right-end (field k v right) left ((w, found), h) = ground (arith, diff_right-end right left h)

diff_left-end : (left right : Fields) → Agrees left right → diff_left left right end ≡ end
unfolding diff_values add_difference
diff_left-end end right h = refl
diff_left-end (field k v left) right ((w, found, same), h) =
    ground (arith, diff_left-end left right h)

null_if_empty_end : (m : Fields) → null_if_empty m ≡ null → m ≡ end
unfolding null_if_empty
null_if_empty_end end e = refl
null_if_empty_end (field k v m) e = cc

diff_objects :
    (left right : Fields)
    → IsCanonicalFields left
    → IsCanonicalFields right
    → (diff_values (object left) (object right) ≡ null) ↔ Aligned left right
unfolding diff_values
diff_objects left right c d = (only_if, if_so)
  where
    only_if : diff_values (object left) (object right) ≡ null → Aligned left right
    only_if e =
        let (before, within) = diff_right-Within right left _ (null_if_empty_end _ e) in
        Aligned-lem left right c d (diff_left-Agrees left right end before).1 within

    if_so : Aligned left right → diff_values (object left) (object right) ≡ null
    if_so h =
        let (agrees, within) = Aligned-Agrees left right c d h in
        rw (diff_left-end left right agrees, diff_right-end right left within) refl

unequal_differ :
    (same : Bool) (before after : Value)
    → ((if same then null else changed_value before after) ≡ null) ↔ (same ≡ true)
unfolding changed_value
unequal_differ true before after = ground arith
unequal_differ false before after = ground arith

all_three :
    (j k : Text) (a b : Bool)
    → ((text_eq j k && (a && b)) ≡ true) ↔ ((j ≡ k) × (a ≡ true) × (b ≡ true))
all_three j k a b = ground (arith, text_eq_iff j k)

mutual
  unfolding diff_values value_eq

  diff_values-null :
      (left right : Value)
      → IsCanonical left
      → IsCanonical right
      → (diff_values left right ≡ null) ↔ (value_eq left right ≡ true)
  diff_values-null null right c d = unequal_differ _ _ _
  diff_values-null (bool x) right c d = unequal_differ _ _ _
  diff_values-null (number x) right c d = unequal_differ _ _ _
  diff_values-null (string x) right c d = unequal_differ _ _ _
  diff_values-null (array x) right c d = unequal_differ _ _ _
  diff_values-null (object left) null c d = unequal_differ _ _ _
  diff_values-null (object left) (bool x) c d = unequal_differ _ _ _
  diff_values-null (object left) (number x) c d = unequal_differ _ _ _
  diff_values-null (object left) (string x) c d = unequal_differ _ _ _
  diff_values-null (object left) (array x) c d = unequal_differ _ _ _
  diff_values-null (object left) (object right) c d =
      let (a, b) = diff_objects left right c d in
      let (p, q) = Aligned-fields_eq left right c d in ((λ e. p (a e)), (λ e. b (q e)))

  Aligned-fields_eq :
      (left right : Fields)
      → IsCanonicalFields left
      → IsCanonicalFields right
      → Aligned left right ↔ (value_eq (object left) (object right) ≡ true)
  Aligned-fields_eq end end c d = ((λ _. refl), (λ _. tt))
  Aligned-fields_eq end (field k w right) c d = ((λ h. absurd h), (λ e. cc))
  Aligned-fields_eq (field j v left) end c d = ((λ h. absurd h), (λ e. cc))
  Aligned-fields_eq (field j v left) (field k w right) c d =
      let (a, b) = diff_values-null v w c.1 d.1 in
      let (p, q) = Aligned-fields_eq left right c.2 d.2 in
      let (split, join) = all_three j k (value_eq v w) (value_eq (object left) (object right)) in
      (
        (λ (key, same, h). join (key, a same, p h)),
        (λ e. let (key, same, h) = split e in (key, b same, q h)),
      )

-- Two documents have no difference exactly when they are equal, the keys of their objects being
-- in order, as a `Map` has them.
pub diff_values-null_iff :
    (left right : Value)
    → IsCanonical left
    → IsCanonical right
    → (diff_values left right ≡ null) ↔ (value_eq left right ≡ true)
diff_values-null_iff left right c d = diff_values-null left right c d
