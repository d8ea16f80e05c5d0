-- ===== src/Json.antt =====
-- `serde_json::Value` and its `Map`, as the crates use them: the keys of an object are walked in
-- ascending order (the `preserve_order` feature is not asked for). A float is its bit pattern.
pub mod FieldLaws
pub mod Paths
pub mod Equality
use research_lab.Prelude.{ℕ, Bool, true, false, Option, none, some, List, [], ◌∷◌, Ordering, ◌≡◌}
use research_lab.Prelude.Text.{Text, text_cmp}

pub data Number : Type 0 where
  pos_int neg_int float : ℕ → Number

mutual
  pub data Value : Type 0 where
    null : Value
    bool : Bool → Value
    number : Number → Value
    string : Text → Value
    array : Items → Value
    object : Fields → Value

  pub data Items : Type 0 where
    nil : Items
    cons : Value → Items → Items

  pub data Fields : Type 0 where
    end : Fields
    field : Text → Value → Fields → Fields

-- `map.get(key)`, `map.insert(key, value)` and `map.remove(key)` of a `Map`.
unfoldable pub get_field : Text → Fields → Option Value
get_field k end = none
get_field k (field j v m) =
    let rest = get_field k m in elim (text_cmp k j) [ Ordering.eq ↦ some v | _ ↦ rest ]

unfoldable pub insert_field : Text → Value → Fields → Fields
insert_field k v end = field k v end
insert_field k v (field j w m) =
    let rest = insert_field k v m in
    elim (text_cmp k j) [
      | Ordering.lt ↦ field k v (field j w m)
      | Ordering.eq ↦ field k v m
      | Ordering.gt ↦ field j w rest
    ]

unfoldable pub remove_field : Text → Fields → Fields
remove_field k end = end
remove_field k (field j w m) =
    let rest = remove_field k m in elim (text_cmp k j) [ Ordering.eq ↦ m | _ ↦ field j w rest ]

-- `value.as_object()`, `as_array()`, `as_str()`, `as_u64()`, `as_bool()`
abbrev pub as_object : Value → Option Fields
as_object (object m) = some m
as_object v = none

abbrev pub items : Items → List Value
items nil = []
items (cons x xs) = x ∷ items xs

abbrev pub as_array : Value → Option (List Value)
as_array (array xs) = some (items xs)
as_array v = none

abbrev pub as_str : Value → Option Text
as_str (string s) = some s
as_str v = none

abbrev pub as_u64 : Value → Option ℕ
as_u64 (number (pos_int n)) = some n
as_u64 v = none

abbrev pub as_bool : Value → Option Bool
as_bool (bool b) = some b
as_bool v = none

abbrev pub is_object : Value → Bool
is_object (object m) = true
is_object v = false

-- `value.get(key)`: what an object holds at the key, nothing for other values.
unfoldable pub get : Text → Value → Option Value
unfolding get_field
get k (object m) = get_field k m
get k v = none

-- The keys of an object are ascending, and those of the objects inside too: what a `Map` promises.
abbrev pub Above : Text → Fields → Type 0
Above k end = Unit
Above k (field j v m) = text_cmp k j ≡ Ordering.lt

abbrev mutual
  pub IsCanonical : Value → Type 0
  IsCanonical null = Unit
  IsCanonical (bool b) = Unit
  IsCanonical (number n) = Unit
  IsCanonical (string s) = Unit
  IsCanonical (array xs) = IsCanonicalItems xs
  IsCanonical (object m) = IsCanonicalFields m

  pub IsCanonicalItems : Items → Type 0
  IsCanonicalItems nil = Unit
  IsCanonicalItems (cons v xs) = IsCanonical v × IsCanonicalItems xs

  pub IsCanonicalFields : Fields → Type 0
  IsCanonicalFields end = Unit
  IsCanonicalFields (field k v m) = Above k m × IsCanonical v × IsCanonicalFields m
