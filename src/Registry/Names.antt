-- ===== src/Registry/Names.antt =====
-- Which texts are kinds and names of registered objects (registry/record.rs and registry/name.rs).
use research_lab.Prelude.{
  ℕ, true, false, [], ◌∷◌, any, all, All, all_iff, ◌≡◌, ◌≢◌, ◌↔◌, refl, arith,
}
use research_lab.Prelude.Text.{Text, text_eq_iff, is_whitespace, is_ascii_alphanumeric}
use research_lab.Prelude.Outcome.{ok}
use research_lab.Registry.{
  parse_kind, validate_kind, is_valid_kind_character, parse_name, validate_registry_name,
  is_valid_registry_name_character,
}

-- A text is a kind exactly if it has a character and all its characters are ASCII letters, ASCII
-- digits or underscores, and the kind that is parsed is the text.
pub parse_kind-eq-ok_iff :
    (value kind : Text)
    → (parse_kind value ≡ ok kind)
      ↔ ((kind ≡ value) × (value ≢ []) × All (λ c. is_valid_kind_character c ≡ true) value)
unfolding parse_kind validate_kind
parse_kind-eq-ok_iff value kind =
    ground (arith, text_eq_iff value [], all_iff is_valid_kind_character value)

name_character-plain : (c : ℕ) → is_valid_registry_name_character c ≡ true → is_whitespace c ≡ false
unfolding is_valid_registry_name_character is_whitespace is_ascii_alphanumeric
name_character-plain c h = ground arith

name-plain :
    (t : Text) → all is_valid_registry_name_character t ≡ true → any is_whitespace t ≡ false
name-plain [] h = refl
name-plain (c ∷ t) h = ground (arith, name_character-plain c, name-plain t)

-- A text is a name exactly if it has a character and all its characters are ASCII letters, ASCII
-- digits, dots, underscores, hyphens or colons: the separate check for whitespace refuses no more.
pub parse_name-eq-ok_iff :
    (value name : Text)
    → (parse_name value ≡ ok name)
      ↔ ((name ≡ value) × (value ≢ []) × All (λ c. is_valid_registry_name_character c ≡ true) value)
unfolding parse_name validate_registry_name
parse_name-eq-ok_iff value name =
    ground (
      arith,
      text_eq_iff value [],
      all_iff is_valid_registry_name_character value,
      name-plain value,
    )
