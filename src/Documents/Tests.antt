-- ===== src/Documents/Tests.antt =====
-- Documents at concrete inputs.
use research_lab.Prelude.{◌≡◌, ◌↔◌, true, refl, some, [], ◌∷◌, suc, length, inl, inr, ℕ}
use research_lab.Prelude.Text.{
  Text, txt, text_eq, text_eq_iff, text_cmp, split, has_char, starts_with,
}
use research_lab.Prelude.Outcome.{RlabResult, ok, err, RlabError, Message}
use research_lab.Prelude.Assoc
use research_lab.Json.{
  Value, null, number, string, object, end, field, Number, get_field, insert_field, remove_field,
}
use research_lab.Json.Paths.{get_path}
use research_lab.Documents.{merge, set_path, load, Folder, remove_parent, validate_document_name}
use research_lab.Documents.Merge.{merge_overrides, merge_inherits}
use research_lab.Documents.Diff.{diff_values}
use research_lab.Documents.Diff.Equal.{diff_values-null_iff}
use research_lab.Json.Equality.{value_eq}
use research_lab.Documents.Override.{Diverges, Reaches, set_path_lem, set_path-eq-ok_iff}
use research_lab.Documents.Inherit.{Resolves, load_lem}

abbrev int : ℕ → Value
int n = number (Number.pos_int n)

abbrev one : Text → Value → Value
one k v = object (field k v end)

-- `model: {width: 32}`, and the child that extends it with `model: {layers: 2}`.
abbrev base_doc : Value
base_doc = one (txt "model") (one (txt "width") (int 32))

abbrev child_own : Value
child_own = one (txt "model") (one (txt "layers") (int 2))

abbrev child_doc : Value
child_doc = object (
    field (txt "extends") (string (txt "base"))
      (field (txt "model") (one (txt "layers") (int 2)) end))

abbrev folder : Folder
folder = (txt "base", ok base_doc) ∷ (txt "child", ok child_doc) ∷ []

abbrev both : Value
both = one (txt "model") (object (field (txt "layers") (int 2) (field (txt "width") (int 32) end)))

loads_child : load 3 folder (txt "child") [] ≡ some (ok both)
unfolding load merge Assoc.get text_cmp text_eq validate_document_name remove_parent has_char
    starts_with get_field insert_field remove_field
loads_child = refl

rejects_cycle :
    load 2 ((txt "a", ok (one (txt "extends") (string (txt "a")))) ∷ []) (txt "a") []
    ≡ some (
        err (
          RlabError.config
            (Message.format "cyclic config inheritance: {}" (txt "a" ∷ txt "a" ∷ []))))
unfolding load Assoc.get text_cmp text_eq validate_document_name has_char starts_with get_field
rejects_cycle = refl

merge_overrides_example :
    get_path (txt "model" ∷ txt "layers" ∷ []) (merge base_doc child_own) ≡ some (int 2)
unfolding get_path get_field text_cmp
merge_overrides_example =
    merge_overrides (txt "model" ∷ txt "layers" ∷ []) base_doc child_own (int 2)
      (tt, (tt, tt, tt), tt) (tt, (tt, tt, tt), tt) refl refl

merge_inherits_example :
    get_path (txt "model" ∷ txt "width" ∷ []) (merge base_doc child_own)
    ≡ get_path (txt "model" ∷ txt "width" ∷ []) base_doc
unfolding get_field text_cmp
merge_inherits_example =
    merge_inherits (txt "model" ∷ txt "width" ∷ []) base_doc child_own (tt, (tt, tt, tt), tt)
      (tt, (tt, tt, tt), tt)
      (
        field (txt "model") (one (txt "layers") (int 2)) end,
        refl,
        inr (one (txt "layers") (int 2), refl, (field (txt "layers") (int 2) end, refl, inl refl)),
      )

width-Diverges : Diverges (split b'.' (txt "model.width")) (txt "model" ∷ txt "depth" ∷ [])
unfolding split text_eq
width-Diverges =
    inr (refl, inl (λ e. let t = (text_eq_iff (txt "width") (txt "depth")).1 e in cc t))

set_path_lem_example :
    (get_path (split b'.' (txt "model.width")) (one (txt "model") (one (txt "width") (int 64)))
      ≡ some (int 64))
    × (get_path (txt "model" ∷ txt "depth" ∷ []) (one (txt "model") (one (txt "width") (int 64)))
        ≡ get_path (txt "model" ∷ txt "depth" ∷ []) base_doc)
unfolding set_path split get_field insert_field text_cmp text_eq
set_path_lem_example =
    set_path_lem base_doc (one (txt "model") (one (txt "width") (int 64))) (int 64)
      (txt "model.width") (txt "model" ∷ txt "depth" ∷ []) refl width-Diverges

set_path-eq-ok_iff_example :
    ((new : Value) × (set_path base_doc (txt "model.width") (int 64) ≡ ok new))
    ↔ Reaches (split b'.' (txt "model.width")) base_doc
set_path-eq-ok_iff_example = set_path-eq-ok_iff base_doc (int 64) (txt "model.width")

load_lem_example :
    (r : RlabResult Value) × (load (suc (length folder)) folder (txt "child") [] ≡ some r)
    × ((r ≡ ok base_doc) ↔ ((n : ℕ) × Resolves folder n (txt "child") base_doc))
load_lem_example = load_lem folder (txt "child") base_doc

-- Only the layers differ.
diff_values_test :
    diff_values both base_doc
    ≡ one
        (txt "model")
        (one (txt "layers") (object (field (txt "after") null (field (txt "before") (int 2) end))))
unfolding diff_values insert_field get_field text_eq value_eq text_cmp
diff_values_test = refl

diff_values-null_iff_example : (diff_values both base_doc ≡ null) ↔ (value_eq both base_doc ≡ true)
unfolding text_cmp
diff_values-null_iff_example =
    diff_values-null_iff both base_doc (tt, (refl, tt, (tt, tt, tt)), tt) (tt, (tt, tt, tt), tt)
