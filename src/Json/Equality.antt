-- ===== src/Json/Equality.antt =====
-- `==` of JSON values. A float of a JSON value is finite, so its two zeros are the only floats that
-- are equal without having the same bits.
use research_lab.Prelude.{Bool, true, false, ◌&&◌, ◌||◌, ◌==◌, ◌%◌, ◌^◌, ◌≡◌, refl, arith}
use research_lab.Prelude.Text.{text_eq, text_eq_refl}
use research_lab.Json.{
  Number, pos_int, neg_int, float, Value, null, bool, number, string, array, object, Items, nil,
  cons, Fields, end, field,
}

number_eq : Number → Number → Bool
number_eq (pos_int a) (pos_int b) = a == b
number_eq (neg_int a) (neg_int b) = a == b
number_eq (float a) (float b) = a == b || (a % 2 ^ 63 == 0 && b % 2 ^ 63 == 0)
number_eq a b = false

bool_eq : Bool → Bool → Bool
bool_eq true b = b
bool_eq false true = false
bool_eq false false = true

unfoldable mutual
  unfolding number_eq bool_eq

  pub value_eq : Value → Value → Bool
  value_eq null null = true
  value_eq (bool a) (bool b) = bool_eq a b
  value_eq (number a) (number b) = number_eq a b
  value_eq (string a) (string b) = text_eq a b
  value_eq (array a) (array b) = items_eq a b
  value_eq (object a) (object b) = fields_eq a b
  value_eq a b = false

  pub items_eq : Items → Items → Bool
  items_eq nil nil = true
  items_eq (cons a xs) (cons b ys) = value_eq a b && items_eq xs ys
  items_eq xs ys = false

  pub fields_eq : Fields → Fields → Bool
  fields_eq end end = true
  fields_eq (field j a xs) (field k b ys) = text_eq j k && (value_eq a b && fields_eq xs ys)
  fields_eq xs ys = false

mutual
  unfolding value_eq number_eq bool_eq

  pub value_eq_refl : (a : Value) → value_eq a a ≡ true
  value_eq_refl null = refl
  value_eq_refl (bool true) = refl
  value_eq_refl (bool false) = refl
  value_eq_refl (number (pos_int a)) = ground arith
  value_eq_refl (number (neg_int a)) = ground arith
  value_eq_refl (number (float a)) = ground arith
  value_eq_refl (string a) = text_eq_refl a
  value_eq_refl (array xs) = items_eq_refl xs
  value_eq_refl (object xs) = fields_eq_refl xs

  pub items_eq_refl : (xs : Items) → items_eq xs xs ≡ true
  items_eq_refl nil = refl
  items_eq_refl (cons a xs) = rw (value_eq_refl a) (items_eq_refl xs)

  pub fields_eq_refl : (xs : Fields) → fields_eq xs xs ≡ true
  fields_eq_refl end = refl
  fields_eq_refl (field k a xs) = ground (arith, text_eq_refl k, value_eq_refl a, fields_eq_refl xs)
