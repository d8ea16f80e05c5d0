-- ===== src/Json/FieldLaws.antt =====
-- The laws of an object's `get`, `insert` and `remove`, and that they keep the keys ascending.
use research_lab.Prelude.{◌≡◌, ◌≢◌, refl, subst, ◌⊎◌, inl, inr, Option, none, some, Ordering, arith}
use research_lab.Prelude.Text.{
  Text, text_cmp, text_cmp_eq, text_cmp_refl, text_cmp_flip, text_lt_trans,
}
use research_lab.Json.{
  Value, Fields, end, field, get_field, insert_field, remove_field, Above, IsCanonical,
  IsCanonicalFields,
}

pub get_field-insert_field :
    (j k : Text) (v : Value) (m : Fields)
    → get_field j (insert_field k v m)
      ≡ elim (text_cmp j k) [ Ordering.eq ↦ some v | _ ↦ get_field j m ]
unfolding get_field insert_field
get_field-insert_field j k v end = ground arith
get_field-insert_field j k v (field i w m) = ground (
  arith,
  get_field-insert_field j k v m,
  text_cmp_eq k i,
  text_cmp_eq j i,
  text_cmp_eq j k,
  text_cmp_refl i,
)

pub get_field-insert_field_self :
    (k : Text) (v : Value) (m : Fields) → get_field k (insert_field k v m) ≡ some v
get_field-insert_field_self k v m = rw (get_field-insert_field k k v m, text_cmp_refl k)

pub get_field-insert_field_ne :
    (j k : Text) (v : Value) (m : Fields) → j ≢ k → get_field j (insert_field k v m) ≡ get_field j m
get_field-insert_field_ne j k v m h =
    rw (get_field-insert_field j k v m) (ground (arith, text_cmp_eq j k))

pub get_field-Above :
    (k : Text) (m : Fields) → Above k m → IsCanonicalFields m → get_field k m ≡ none
unfolding get_field
get_field-Above k end a s = refl
get_field-Above k (field j w end) a s = ground arith
get_field-Above k (field j w (field i u m)) a s =
    ground (arith, get_field-Above k (field i u m) (text_lt_trans k j i a s.0) s.2)

-- Removing a key drops it, and touches no other.
pub get_field-remove_field :
    (j k : Text) (m : Fields)
    → IsCanonicalFields m
    → get_field j (remove_field k m)
      ≡ elim (text_cmp j k) [ Ordering.eq ↦ none | _ ↦ get_field j m ]
unfolding get_field remove_field
get_field-remove_field j k end s = ground arith
get_field-remove_field j k (field i w m) s = ground (
  arith,
  get_field-remove_field j k m s.2,
  get_field-Above i m s.0 s.2,
  text_cmp_eq k i,
  text_cmp_eq j i,
  text_cmp_eq j k,
  text_cmp_refl i,
)

insert_field-Above :
    (i k : Text) (v : Value) (m : Fields)
    → text_cmp i k ≡ Ordering.lt
    → Above i m
    → Above i (insert_field k v m)
unfolding insert_field
insert_field-Above i k v end h a = h
insert_field-Above i k v (field j w m) h a = ground arith

pub insert_field-IsCanonical :
    (k : Text) (v : Value) (m : Fields)
    → IsCanonical v
    → IsCanonicalFields m
    → IsCanonicalFields (insert_field k v m)
unfolding insert_field
insert_field-IsCanonical k v end c s = (tt, c, tt)
insert_field-IsCanonical k v (field j w m) c s = ground (
  arith,
  insert_field-IsCanonical k v m c s.2,
  insert_field-Above j k v m,
  text_cmp_flip k j,
  text_cmp_eq k j,
)

pub Above-lower : (i j : Text) (m : Fields) → text_cmp i j ≡ Ordering.lt → Above j m → Above i m
Above-lower i j end h a = tt
Above-lower i j (field k v m) h a = text_lt_trans i j k h a

remove_field-Above :
    (i k : Text) (m : Fields) → Above i m → IsCanonicalFields m → Above i (remove_field k m)
unfolding remove_field
remove_field-Above i k end a s = tt
remove_field-Above i k (field j w m) a s = ground (arith, Above-lower i j m a s.0)

pub remove_field-IsCanonical :
    (k : Text) (m : Fields) → IsCanonicalFields m → IsCanonicalFields (remove_field k m)
unfolding remove_field
remove_field-IsCanonical k end s = tt
remove_field-IsCanonical k (field j w m) s =
    ground (arith, remove_field-IsCanonical k m s.2, remove_field-Above j k m s.0 s.2)

-- An entry is the one looked for, or the search goes on.
hit_or_rest :
    (o : Ordering) (w v : Value) (rest : Option Value)
    → elim o [ Ordering.eq ↦ some w | _ ↦ rest ] ≡ some v
    → (w ≡ v) ⊎ (rest ≡ some v)
hit_or_rest Ordering.lt w v rest e = inr e
hit_or_rest Ordering.eq w v rest e = inl (cc)
hit_or_rest Ordering.gt w v rest e = inr e

pub get_field-IsCanonical :
    (k : Text) (m : Fields) (v : Value)
    → IsCanonicalFields m
    → get_field k m ≡ some v
    → IsCanonical v
unfolding get_field
get_field-IsCanonical k end v s e = cc
get_field-IsCanonical k (field j w m) v s e =
    elim (hit_or_rest (text_cmp k j) w v (get_field k m) e) [
      | inl here ↦ subst IsCanonical here s.1
      | inr later ↦ get_field-IsCanonical k m v s.2 later
    ]
