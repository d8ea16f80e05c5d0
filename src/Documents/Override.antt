-- ===== src/Documents/Override.antt =====
-- What a dotted override changes, and when it is refused.
use research_lab.Prelude.{
  ◌≡◌, ◌≢◌, refl, sym, subst, false, Option, some, List, [], ◌∷◌, ◌⊎◌, ◌↔◌, inl, inr, arith,
  Bool-cases,
}
use research_lab.Prelude.Text.{Text, text_eq, text_eq_iff, split}
use research_lab.Prelude.Outcome.{RlabError, ok, err, bind-eq-ok}
use research_lab.Json.{Value, object, Fields, get, get_field, insert_field}
use research_lab.Json.FieldLaws.{get_field-insert_field_self, get_field-insert_field_ne}
use research_lab.Json.Paths.{get_path}
use research_lab.Documents.{set_path, set_parts, descend_path, insert_path_value, put_child}

-- Two paths part at some key.
abbrev pub Diverges : List Text → List Text → Type 0
Diverges (p ∷ ps) (q ∷ qs) = (p ≢ q) ⊎ ((p ≡ q) × Diverges ps qs)
Diverges ps qs = ⊥

-- Every key of the path is non-empty, and all but the last lead through mappings.
abbrev pub Reaches : List Text → Value → Type 0
Reaches [] target = ⊥
Reaches (part ∷ []) target = (part ≢ []) × (m : Fields) × (target ≡ object m)
Reaches (part ∷ next ∷ parts) target =
    (part ≢ [])
    × (m : Fields) × (child : Fields) × (target ≡ object m)
    × (get_field part m ≡ some (object child))
    × Reaches (next ∷ parts) (object child)

child_cases :
    (o : Option Value) (e : RlabError) (child : Value)
    → elim o [ some (object c) ↦ ok (object c) | _ ↦ err e ] ≡ ok child
    → (c : Fields) × (o ≡ some (object c)) × (child ≡ object c)
child_cases (some (object c)) e child h = (c, refl, cc)
child_cases o e child h = cc

-- `descend_path` finds a mapping at the key, or fails.
descend_path-eq-ok :
    (target child : Value) (path part : Text)
    → descend_path target path part ≡ ok child
    → (m : Fields) × (c : Fields) × (target ≡ object m)
      × (get_field part m ≡ some (object c))
      × (child ≡ object c)
unfolding descend_path
descend_path-eq-ok (object m) child path part e =
    let (c, found, is_c) = child_cases (get_field part m) _ child e in (m, c, refl, found, is_c)
descend_path-eq-ok target child path part e = cc

insert_path_value-eq-ok :
    (target new value : Value) (path part : Text)
    → insert_path_value target path part value ≡ ok new
    → (m : Fields) × (target ≡ object m) × (new ≡ object (insert_field part value m))
unfolding insert_path_value
insert_path_value-eq-ok (object m) new value path part e = (m, refl, cc)
insert_path_value-eq-ok target new value path part e = cc

not_empty : (t : Text) → text_eq t [] ≡ false → t ≢ []
not_empty t e h = cc ((text_eq_iff t []).1 h)

-- An override that is accepted stands at its path.
get_path-set_parts :
    (parts : List Text) (path : Text) (value target new : Value)
    → set_parts path parts value target ≡ ok new
    → get_path parts new ≡ some value
unfolding set_parts get_path put_child get
get_path-set_parts [] path value target new e = cc
get_path-set_parts (part ∷ []) path value target new e = elim (Bool-cases (text_eq part [])) [
  | inl t ↦ cc (rw t at e)
  | inr f ↦
      let (m, is_m, is_new) = insert_path_value-eq-ok target new value path part (rw f at e) in
      rw is_new (ground (arith, get_field-insert_field_self part value m))
]
get_path-set_parts (part ∷ next ∷ parts) path value target new e =
    elim (Bool-cases (text_eq part [])) [
      | inl t ↦ cc (rw t at e)
      | inr f ↦
          let (child, down, e₁) = bind-eq-ok (descend_path target path part) _ (rw f at e) in
          let (child', deep, e₂) = bind-eq-ok (set_parts path (next ∷ parts) value child) _ e₁ in
          let (m, c, is_m, found, is_c) = descend_path-eq-ok target child path part down in
          ground (
            arith,
            get_path-set_parts (next ∷ parts) path value child child' deep,
            get_field-insert_field_self part child' m,
          )
    ]

-- Nothing else changes.
get_path-set_parts_other :
    (parts other : List Text) (path : Text) (value target new : Value)
    → Diverges parts other
    → set_parts path parts value target ≡ ok new
    → get_path other new ≡ get_path other target
unfolding set_parts get_path put_child get
get_path-set_parts_other [] other path value target new d e = cc
get_path-set_parts_other (part ∷ ps) [] path value target new d e = absurd d
get_path-set_parts_other (part ∷ []) (q ∷ qs) path value target new (inr (same, d)) e = absurd d
get_path-set_parts_other (part ∷ []) (q ∷ qs) path value target new (inl ne) e =
    elim (Bool-cases (text_eq part [])) [
      | inl t ↦ cc (rw t at e)
      | inr f ↦
          let (m, is_m, is_new) = insert_path_value-eq-ok target new value path part (rw f at e) in
          rw (is_new, is_m)
            (ground (arith, get_field-insert_field_ne q part value m (λ h. ne (sym h))))
    ]
get_path-set_parts_other (part ∷ next ∷ parts) (q ∷ qs) path value target new d e =
    elim (Bool-cases (text_eq part [])) [
      | inl t ↦ cc (rw t at e)
      | inr f ↦
          let (child, down, e₁) = bind-eq-ok (descend_path target path part) _ (rw f at e) in
          let (child', deep, e₂) = bind-eq-ok (set_parts path (next ∷ parts) value child) _ e₁ in
          let (m, c, is_m, found, is_c) = descend_path-eq-ok target child path part down in
          elim d [
            | inl ne ↦ ground (arith, get_field-insert_field_ne q part child' m (λ h. ne (sym h)))
            | inr (same, d') ↦ ground (
              arith,
              get_path-set_parts_other (next ∷ parts) qs path value child child' d' deep,
              get_field-insert_field_self part child' m,
            )
          ]
    ]

-- When the parts lead through mappings, the override is accepted.
set_parts-Reaches :
    (parts : List Text) (path : Text) (value target : Value)
    → Reaches parts target
    → (new : Value) × (set_parts path parts value target ≡ ok new)
unfolding set_parts descend_path insert_path_value
set_parts-Reaches [] path value target r = absurd r
set_parts-Reaches (part ∷ []) path value target (ne, m, is_m) =
    (object (insert_field part value m), ground (arith, text_eq_iff part []))
set_parts-Reaches (part ∷ next ∷ parts) path value target (ne, m, c, is_m, found, r) =
    let (child', deep) = set_parts-Reaches (next ∷ parts) path value (object c) r in
    (put_child target part child', ground (arith, text_eq_iff part [], deep))

Reaches-set_parts :
    (parts : List Text) (path : Text) (value target new : Value)
    → set_parts path parts value target ≡ ok new
    → Reaches parts target
unfolding set_parts
Reaches-set_parts [] path value target new e = cc
Reaches-set_parts (part ∷ []) path value target new e = elim (Bool-cases (text_eq part [])) [
  | inl t ↦ cc (rw t at e)
  | inr f ↦
      let (m, is_m, is_new) = insert_path_value-eq-ok target new value path part (rw f at e) in
      (not_empty part f, m, is_m)
]
Reaches-set_parts (part ∷ next ∷ parts) path value target new e =
    elim (Bool-cases (text_eq part [])) [
      | inl t ↦ cc (rw t at e)
      | inr f ↦
          let (child, down, e₁) = bind-eq-ok (descend_path target path part) _ (rw f at e) in
          let (child', deep, e₂) = bind-eq-ok (set_parts path (next ∷ parts) value child) _ e₁ in
          let (m, c, is_m, found, is_c) = descend_path-eq-ok target child path part down in
          (
            not_empty part f,
            m,
            c,
            is_m,
            found,
            subst (Reaches (next ∷ parts)) is_c
                (Reaches-set_parts (next ∷ parts) path value child child' deep),
          )
    ]

-- An override that is accepted stands at the path that its dots spell, and every path that parts
-- from that one holds what it held before.
pub set_path_lem :
    (root new value : Value) (path : Text) (other : List Text)
    → set_path root path value ≡ ok new
    → Diverges (split b'.' path) other
    → (get_path (split b'.' path) new ≡ some value) × (get_path other new ≡ get_path other root)
unfolding set_path
set_path_lem root new value path other e d = elim (Bool-cases (text_eq path [])) [
  | inl t ↦ cc (rw t at e)
  | inr f ↦ (
    get_path-set_parts (split b'.' path) path value root new (rw f at e),
    get_path-set_parts_other (split b'.' path) other path value root new d (rw f at e),
  )
]

no_empty_key : (root : Value) → Reaches (split b'.' []) root → ⊥
unfolding split
no_empty_key root h = h.0 refl

-- It is accepted exactly when no key between the dots is empty and the keys before the last lead
-- through mappings.
pub set_path-eq-ok_iff :
    (root value : Value) (path : Text)
    → ((new : Value) × (set_path root path value ≡ ok new)) ↔ Reaches (split b'.' path) root
unfolding set_path
set_path-eq-ok_iff root value path = elim (Bool-cases (text_eq path [])) [
  | inl t ↦ (
    λ (new, e). cc (rw t at e),
    λ r. absurd (
        no_empty_key root (subst (λ p. Reaches (split b'.' p) root) ((text_eq_iff path []).0 t) r)),
  )
  | inr f ↦ (
    λ (new, e). Reaches-set_parts (split b'.' path) path value root new (rw f at e),
    λ r. let (new, e) = set_parts-Reaches (split b'.' path) path value root r in (new, rw f e),
  )
]
