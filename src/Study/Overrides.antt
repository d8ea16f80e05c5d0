-- ===== src/Study/Overrides.antt =====
-- What overriding parameters leaves at a key.
use research_lab.Prelude.{
  ℕ, true, false, some, List, [], ◌∷◌, ◌++◌, All, ◌≡◌, ◌≢◌, inl, inr, refl, sym, ap, ◌∙◌, arith,
  Bool-cases, Option-cases, ◌==◌,
}
use research_lab.Prelude.Text.{Text, has_char, split, cons_head}
use research_lab.Prelude.Outcome.{ok, bind-eq-ok, RlabResult-cases}
use research_lab.Prelude.Assoc
use research_lab.Prelude.Assoc.{Assoc}
use research_lab.Json
use research_lab.Json.{
  Value, null, bool, number, string, array, object, Fields, end, field, get_field, insert_field,
  is_object,
}
use research_lab.Json.FieldLaws.{get_field-insert_field_self, get_field-insert_field_ne}
use research_lab.Json.Paths.{get_path}
use research_lab.Documents.{set_path, apply_dotted_overrides}
use research_lab.Documents.Override.{Diverges, set_path_lem}
use research_lab.Documents.Shape.{set_path-mapping}
use research_lab.Study.{
  apply_runtime_override, apply_runtime_overrides_value, insert_param, value_to_params, entries_of,
}

-- The key that a path starts with.
abbrev pub first_part : Text → Text
first_part path = elim (split b'.' path) [ [] ↦ [] | part ∷ parts ↦ part ]

first_part-Diverges :
    (k : Text) (parts : List Text)
    → elim parts [ [] ↦ [] | part ∷ ps ↦ part ] ≢ k
    → (parts ≢ [])
    → Diverges parts (k ∷ [])
first_part-Diverges k [] h n = absurd (n refl)
first_part-Diverges k (part ∷ parts) h n = inl h

dotted_set :
    (key : Text) (value params patched : Value)
    → apply_dotted_overrides params ((key, value) ∷ []) false ≡ ok patched
    → set_path params key value ≡ ok patched
unfolding apply_dotted_overrides
dotted_set key value params patched e =
    let (v, s, rest) = bind-eq-ok (set_path params key value) _ e in s ∙ rest

split-nonempty : (c : ℕ) (t : Text) → split c t ≢ []
unfolding split cons_head
split-nonempty c [] e = ground arith
split-nonempty c (d ∷ t) e = elim (Bool-cases (d == c)) [
  | inl same ↦ ground arith
  | inr other ↦ filled d (split c t) (rw other at e)
]
  where
    filled : (d : ℕ) (ps : List Text) → cons_head d ps ≡ [] → ⊥
    filled d [] e = ground arith
    filled d (p ∷ ps) e = ground arith

get_one : (k : Text) (v : Value) → get_path (k ∷ []) v ≡ Json.get k v
unfolding get_path
get_one k v = ground (arith, Option-cases (Json.get k v))

insert_param-mapping :
    (key : Text) (value params : Value)
    → is_object (insert_param key value params) ≡ is_object params
unfolding insert_param
insert_param-mapping key value (object m) = refl
insert_param-mapping key value null = refl
insert_param-mapping key value (bool b) = refl
insert_param-mapping key value (number n) = refl
insert_param-mapping key value (string s) = refl
insert_param-mapping key value (array xs) = refl

get-insert_param_ne :
    (k key : Text) (value params : Value)
    → key ≢ k
    → Json.get k (insert_param key value params) ≡ Json.get k params
unfolding insert_param Json.get
get-insert_param_ne k key value (object m) n =
    get_field-insert_field_ne k key value m (λ e. n (sym e))
get-insert_param_ne k key value null n = refl
get-insert_param_ne k key value (bool b) n = refl
get-insert_param_ne k key value (number x) n = refl
get-insert_param_ne k key value (string s) n = refl
get-insert_param_ne k key value (array xs) n = refl

get-insert_param_self :
    (k : Text) (value params : Value)
    → is_object params ≡ true
    → Json.get k (insert_param k value params) ≡ some value
unfolding insert_param Json.get
get-insert_param_self k value (object m) o = get_field-insert_field_self k value m
get-insert_param_self k value null o = ground arith
get-insert_param_self k value (bool b) o = ground arith
get-insert_param_self k value (number x) o = ground arith
get-insert_param_self k value (string s) o = ground arith
get-insert_param_self k value (array xs) o = ground arith

-- The key is another, and so is the first part of its path.
abbrev pub IsApart : Text → Text × Value → Type 0
IsApart k entry = (entry.0 ≢ k) × (first_part entry.0 ≢ k)

override-mapping :
    (key : Text) (value params : Value)
    → is_object (apply_runtime_override key value params) ≡ is_object params
unfolding apply_runtime_override
override-mapping key value params = elim (Bool-cases (has_char b'.' key)) [
  | inr flat ↦ rw flat (insert_param-mapping key value params)
  | inl dotted ↦ elim (RlabResult-cases (apply_dotted_overrides params ((key, value) ∷ []) false)) [
    | inr (x, e) ↦ rw (dotted, e) (insert_param-mapping key value params)
    | inl (patched, e) ↦
        let (from, to) =
          set_path-mapping params value patched key (dotted_set key value params patched e) in
        rw (dotted, e) (to ∙ sym from)
  ]
]

override-apart :
    (k key : Text) (value params : Value)
    → IsApart k (key, value)
    → Json.get k (apply_runtime_override key value params) ≡ Json.get k params
unfolding apply_runtime_override
override-apart k key value params a = elim (Bool-cases (has_char b'.' key)) [
  | inr flat ↦ rw flat (get-insert_param_ne k key value params a.0)
  | inl dotted ↦ elim (RlabResult-cases (apply_dotted_overrides params ((key, value) ∷ []) false)) [
    | inr (x, e) ↦ rw (dotted, e) (get-insert_param_ne k key value params a.0)
    | inl (patched, e) ↦
        let kept =
          set_path_lem params patched value key (k ∷ []) (dotted_set key value params patched e)
            (first_part-Diverges k (split b'.' key) a.1 (split-nonempty b'.' key)) in
        rw (dotted, e) (sym (get_one k patched) ∙ kept.1 ∙ get_one k params)
  ]
]

overrides-mapping :
    (over : Assoc Value) (params : Value)
    → is_object (apply_runtime_overrides_value params over) ≡ is_object params
unfolding apply_runtime_overrides_value
overrides-mapping [] params = refl
overrides-mapping ((key, value) ∷ over) params =
    overrides-mapping over (apply_runtime_override key value params)
    ∙ override-mapping key value params

overrides-apart :
    (k : Text) (over : Assoc Value) (params : Value)
    → All (IsApart k) over
    → Json.get k (apply_runtime_overrides_value params over) ≡ Json.get k params
unfolding apply_runtime_overrides_value
overrides-apart k [] params a = refl
overrides-apart k ((key, value) ∷ over) params a =
    overrides-apart k over (apply_runtime_override key value params) a.1
    ∙ override-apart k key value params a.0

override_flat :
    (k : Text) (v params : Value)
    → has_char b'.' k ≡ false
    → is_object params ≡ true
    → Json.get k (apply_runtime_override k v params) ≡ some v
unfolding apply_runtime_override
override_flat k v params flat o = rw flat (get-insert_param_self k v params o)

-- An override of a key without dots, after others of any kind and before others that are apart from
-- it, is what parameters that form a mapping hold at the key in the end.
pub overrides-last :
    (k : Text) (v : Value) (before after : Assoc Value) (params : Value)
    → has_char b'.' k ≡ false
    → All (IsApart k) after
    → is_object params ≡ true
    → Json.get k (apply_runtime_overrides_value params (before ++ (k, v) ∷ after)) ≡ some v
unfolding apply_runtime_overrides_value
overrides-last k v [] after params flat a o =
    overrides-apart k after (apply_runtime_override k v params) a ∙ here
  where
    here : Json.get k (apply_runtime_override k v params) ≡ some v
    here = override_flat k v params flat o
overrides-last k v ((key, value) ∷ before) after params flat a o =
    overrides-last k v before after (apply_runtime_override key value params) flat a
      (override-mapping key value params ∙ o)

get-entries_of : (k : Text) (m : Fields) → Assoc.get k (entries_of m) ≡ get_field k m
unfolding entries_of Assoc.get get_field
get-entries_of k end = refl
get-entries_of k (field j v m) = ground (arith, get-entries_of k m)

get_object : (k : Text) (m : Fields) → Json.get k (object m) ≡ get_field k m
unfolding Json.get
get_object k m = refl

params_shape :
    (x : Value) (final : Assoc Value)
    → value_to_params x ≡ ok final
    → (m : Fields) × (x ≡ object m) × (final ≡ entries_of m)
unfolding value_to_params
params_shape (object m) final e = (m, refl, sym (cc e))
params_shape null final e = cc
params_shape (bool b) final e = cc
params_shape (number n) final e = cc
params_shape (string s) final e = cc
params_shape (array xs) final e = cc

-- What becomes the parameters of a job was a mapping before its last overrides, and holds them.
pub final_params :
    (k : Text) (v : Value) (before after : Assoc Value) (params : Value) (final : Assoc Value)
    → has_char b'.' k ≡ false
    → All (IsApart k) after
    → value_to_params (apply_runtime_overrides_value params (before ++ (k, v) ∷ after)) ≡ ok final
    → Assoc.get k final ≡ some v
final_params k v before after params final flat a e =
    let over = before ++ (k, v) ∷ after in
    let (m, shape, same) = params_shape (apply_runtime_overrides_value params over) final e in
    let o : is_object params ≡ true = sym (overrides-mapping over params) ∙ ap is_object shape in
    ap (Assoc.get k) same
    ∙ get-entries_of k m
    ∙ sym (get_object k m)
    ∙ ap (Json.get k) (sym shape)
    ∙ overrides-last k v before after params flat a o
