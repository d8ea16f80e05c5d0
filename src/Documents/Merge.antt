-- ===== src/Documents/Merge.antt =====
-- What a merged document holds at each path.
use research_lab.Prelude.{
  ◌≡◌, refl, false, none, some, List, [], ◌∷◌, inl, inr, arith, Option-cases,
}
use research_lab.Prelude.Text.{Text, text_cmp_eq}
use research_lab.Json.{
  Value, null, bool, number, string, array, object, Fields, end, field, get_field, insert_field,
  remove_field, is_object, IsCanonical, IsCanonicalFields,
}
use research_lab.Json.FieldLaws.{
  get_field-insert_field, get_field-remove_field, get_field-Above, insert_field-IsCanonical,
  remove_field-IsCanonical, get_field-IsCanonical,
}
use research_lab.Json.Paths.{get_path, Misses, Misses-null, Misses-none}
use research_lab.Documents.{merge, merge_fields, or_null}

pub or_null-IsCanonical :
    (k : Text) (m : Fields) → IsCanonicalFields m → IsCanonical (or_null (get_field k m))
or_null-IsCanonical k m s = elim (Option-cases (get_field k m)) [
  | inl e ↦ rw e tt
  | inr (v, e) ↦ rw e (get_field-IsCanonical k m v s e)
]

mutual
  unfolding merge

  pub merge-IsCanonical :
      (over base : Value) → IsCanonical base → IsCanonical over → IsCanonical (merge base over)
  merge-IsCanonical (object over) (object base) b o = merge_fields-IsCanonical over base b o
  merge-IsCanonical (object over) _ b o = o
  merge-IsCanonical null (object base) b o = o
  merge-IsCanonical null _ b o = o
  merge-IsCanonical (bool x) (object base) b o = o
  merge-IsCanonical (bool x) _ b o = o
  merge-IsCanonical (number x) (object base) b o = o
  merge-IsCanonical (number x) _ b o = o
  merge-IsCanonical (string x) (object base) b o = o
  merge-IsCanonical (string x) _ b o = o
  merge-IsCanonical (array x) (object base) b o = o
  merge-IsCanonical (array x) _ b o = o

  pub merge_fields-IsCanonical :
      (over base : Fields)
      → IsCanonicalFields base
      → IsCanonicalFields over
      → IsCanonicalFields (merge_fields base over)
  merge_fields-IsCanonical end base b o = b
  merge_fields-IsCanonical (field k v over) base b o =
      merge_fields-IsCanonical over _
        (insert_field-IsCanonical k _ _
          (merge-IsCanonical v (or_null (get_field k base)) (or_null-IsCanonical k base b) o.1)
          (remove_field-IsCanonical k base b))
        o.2

-- What a merged object holds at a key.
pub get_field-merge_fields :
    (k : Text) (base over : Fields)
    → IsCanonicalFields base
    → IsCanonicalFields over
    → get_field k (merge_fields base over) ≡ elim (get_field k over) [
      | none ↦ get_field k base
      | some v ↦ some (merge (or_null (get_field k base)) v)
    ]
unfolding merge get_field
get_field-merge_fields k base end b o = refl
get_field-merge_fields k base (field j v over) b o = ground (
  arith,
  get_field-merge_fields k
      (insert_field j (merge (or_null (get_field j base)) v) (remove_field j base)) over next o.2,
  get_field-insert_field k j (merge (or_null (get_field j base)) v) (remove_field j base),
  get_field-remove_field k j base b,
  get_field-Above j over o.0 o.2,
  text_cmp_eq k j,
)
  where
    next :
        IsCanonicalFields
          (insert_field j (merge (or_null (get_field j base)) v) (remove_field j base))
    next =
        insert_field-IsCanonical j _ _
          (merge-IsCanonical v (or_null (get_field j base)) (or_null-IsCanonical j base b) o.1)
          (remove_field-IsCanonical j base b)

-- The value that an overlay holds at a path, if it is no mapping, is what the merged document
-- holds there.
pub merge_overrides :
    (p : List Text) (base over leaf : Value)
    → IsCanonical base
    → IsCanonical over
    → get_path p over ≡ some leaf
    → is_object leaf ≡ false
    → get_path p (merge base over) ≡ some leaf
unfolding get_path merge
merge_overrides [] (object base) (object over) leaf b o e n = cc
merge_overrides [] base over leaf b o e n = ground arith
merge_overrides (k ∷ p) (object base) (object over) leaf b o e n =
    elim (Option-cases (get_field k over)) [
      | inl absent ↦ ground arith
      | inr (v, found) ↦ ground (
        arith,
        get_field-merge_fields k base over b o,
        merge_overrides p (or_null (get_field k base)) v leaf (or_null-IsCanonical k base b)
            (get_field-IsCanonical k over v o found),
      )
    ]
merge_overrides (k ∷ p) base over leaf b o e n = ground arith

-- Where the overlay has no entry on the way, the merged document has what the base has.
pub merge_inherits :
    (p : List Text) (base over : Value)
    → IsCanonical base
    → IsCanonical over
    → Misses p over
    → get_path p (merge base over) ≡ get_path p base
unfolding get_path merge
merge_inherits [] base over b o miss = absurd miss
merge_inherits (k ∷ p) (object base) (object over) b o (m, e, inl absent) =
    ground (arith, get_field-merge_fields k base over b o)
merge_inherits (k ∷ p) (object base) (object over) b o (m, e, inr (w, found, miss)) =
    let found' : get_field k over ≡ some w = ground arith in
    ground (
      arith,
      get_field-merge_fields k base over b o,
      Misses-null p w miss,
      merge_inherits p (or_null (get_field k base)) w (or_null-IsCanonical k base b)
          (get_field-IsCanonical k over w o found') miss,
    )
merge_inherits (k ∷ p) (object base) over b o (m, e, c) = cc
merge_inherits (k ∷ p) base over b o miss = Misses-none (k ∷ p) over miss
