-- ===== src/Documents/Shape.antt =====
-- Setting a path works on mappings only, and gives mappings.
use research_lab.Prelude.{
  ◌≡◌, refl, sym, subst, true, List, [], ◌∷◌, inl, inr, arith, Bool-cases, ap,
}
use research_lab.Prelude.Text.{Text, text_eq, split}
use research_lab.Prelude.Outcome.{ok, bind-eq-ok}
use research_lab.Json.{Value, null, bool, number, string, array, object, insert_field, is_object}
use research_lab.Documents.{set_path, set_parts, descend_path, insert_path_value, put_child}

insert_path_value-mapping :
    (target value new : Value) (path key : Text)
    → insert_path_value target path key value ≡ ok new
    → (is_object target ≡ true) × (is_object new ≡ true)
unfolding insert_path_value
insert_path_value-mapping (object m) value new path key e =
    let same : object (insert_field key value m) ≡ new = cc e in (refl, ap is_object (sym same))
insert_path_value-mapping null value new path key e = ground arith
insert_path_value-mapping (bool b) value new path key e = ground arith
insert_path_value-mapping (number n) value new path key e = ground arith
insert_path_value-mapping (string s) value new path key e = ground arith
insert_path_value-mapping (array xs) value new path key e = ground arith

descend_path-mapping :
    (target child : Value) (path part : Text)
    → descend_path target path part ≡ ok child
    → is_object target ≡ true
unfolding descend_path
descend_path-mapping (object m) child path part e = refl
descend_path-mapping null child path part e = ground arith
descend_path-mapping (bool b) child path part e = ground arith
descend_path-mapping (number n) child path part e = ground arith
descend_path-mapping (string s) child path part e = ground arith
descend_path-mapping (array xs) child path part e = ground arith

put_child-mapping :
    (target child : Value) (part : Text)
    → is_object target ≡ true
    → is_object (put_child target part child) ≡ true
unfolding put_child
put_child-mapping (object m) child part e = refl
put_child-mapping null child part e = e
put_child-mapping (bool b) child part e = e
put_child-mapping (number n) child part e = e
put_child-mapping (string s) child part e = e
put_child-mapping (array xs) child part e = e

set_parts-mapping :
    (path : Text) (parts : List Text) (value target new : Value)
    → set_parts path parts value target ≡ ok new
    → (is_object target ≡ true) × (is_object new ≡ true)
unfolding set_parts
set_parts-mapping path [] value target new e = cc
set_parts-mapping path (part ∷ []) value target new e = elim (Bool-cases (text_eq part [])) [
  | inl t ↦ cc (rw t at e)
  | inr f ↦ insert_path_value-mapping target value new path part (rw f at e)
]
set_parts-mapping path (part ∷ next ∷ parts) value target new e =
    elim (Bool-cases (text_eq part [])) [
      | inl t ↦ cc (rw t at e)
      | inr f ↦
          let (child, d, e1) = bind-eq-ok (descend_path target path part) _ (rw f at e) in
          let (child', s, e2) = bind-eq-ok (set_parts path (next ∷ parts) value child) _ e1 in
          let is_map = descend_path-mapping target child path part d in
          let same : put_child target part child' ≡ new = cc e2 in
          (
            is_map,
            subst (λ v. is_object v ≡ true) same (put_child-mapping target child' part is_map),
          )
    ]

-- A path is set in a mapping only, and the result is one.
pub set_path-mapping :
    (root value new : Value) (path : Text)
    → set_path root path value ≡ ok new
    → (is_object root ≡ true) × (is_object new ≡ true)
unfolding set_path
set_path-mapping root value new path e = elim (Bool-cases (text_eq path [])) [
  | inl t ↦ cc (rw t at e)
  | inr f ↦ set_parts-mapping path (split b'.' path) value root new (rw f at e)
]
