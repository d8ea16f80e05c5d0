-- ===== src/Documents/Diff.antt =====
-- crates/rlab-core/src/config/documents/diff.rs: the difference of two documents. The source walks the
-- keys of both objects in one pass; as the differences go into a map, the order does not
-- matter, and here the keys of the left object come first and then those of the right one alone.
pub mod Aligned
pub mod Equal
use research_lab.Prelude.{Bool, true, false, Option, none, some, if◌then◌else◌}
use research_lab.Prelude.Text.{Text, txt}
use research_lab.Json.{
  Value, null, bool, number, string, array, object, Fields, end, field, get_field, insert_field,
}
use research_lab.Json.Equality.{value_eq}

pub changed_value : Value → Value → Value
changed_value before after =
    object (insert_field (txt "after") after (insert_field (txt "before") before end))

pub changed_with_missing_before : Value → Value
unfolding changed_value
changed_with_missing_before after = changed_value null after

pub changed_with_missing_after : Value → Value
unfolding changed_value
changed_with_missing_after before = changed_value before null

-- `if difference != Value::Null { result.insert(…) }`
pub add_difference : Text → Value → Fields → Fields
add_difference k null result = result
add_difference k difference result = insert_field k difference result

pub null_if_empty : Fields → Value
null_if_empty end = null
null_if_empty (field k v m) = object (field k v m)

-- The keys of the right object that the left one does not have.
pub diff_right : Fields → Fields → Fields → Fields
unfolding add_difference changed_with_missing_before
diff_right left end result = result
diff_right left (field k v right) result = elim (get_field k left) [
  | none ↦ diff_right left right (add_difference k (changed_with_missing_before v) result)
  | some w ↦ diff_right left right result
]

unfoldable mutual
  unfolding changed_value changed_with_missing_after add_difference null_if_empty diff_right

  pub diff_values : Value → Value → Value
  diff_values (object left) (object right) =
      null_if_empty (diff_right left right (diff_left left right end))
  diff_values left right = if value_eq left right then null else changed_value left right

  -- The keys of the left object.
  pub diff_left : Fields → Fields → Fields → Fields
  diff_left end right result = result
  diff_left (field k v left) right result = diff_left left right (
      add_difference k
        (elim (get_field k right) [
          | none ↦ changed_with_missing_after v
          | some w ↦ diff_values v w
        ])
        result)
