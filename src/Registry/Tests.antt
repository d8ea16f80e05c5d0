-- ===== src/Registry/Tests.antt =====
-- Runs at concrete inputs.
use research_lab.Prelude.{◌≡◌, refl, false, [], ◌∷◌}
use research_lab.Prelude.Text.{txt, text_eq, is_blank, is_whitespace, is_ascii_alphanumeric}
use research_lab.Prelude.Outcome.{ok}
use research_lab.Registry.{
  Registry, RegistryRecord, empty, insert, insert_checked, insert_validated, find_ref, has_identity,
  record_eq, validate, validate_no_conflicts, validate_registry_record, validate_schema_version,
  validate_kind, validate_registry_name, validate_non_empty_field, is_valid_kind_character,
  is_valid_registry_name_character,
}
use research_lab.Registry.Insertion.{Registered, Registered-validate, Answers, insert_lem}

abbrev sweep : RegistryRecord
sweep = record {
  schema_version = 1;
  kind = txt "experiment";
  name = txt "sweep";
  version = txt "0.1.0";
  module_name = txt "lab";
  qualname = txt "sweep";
  source = txt "lab.py" ∷ [];
  tags = [];
  description = [];
  metadata = [];
}

abbrev newer : RegistryRecord
newer = record sweep { version = txt "1.0.0" }

abbrev one_record : Registry
one_record = record { schema_version = 1; records = sweep ∷ [] }

inserts_sweep : insert empty sweep ≡ (ok tt, one_record)
unfolding insert insert_checked insert_validated find_ref validate_registry_record
    validate_schema_version validate_kind validate_registry_name validate_non_empty_field
    is_valid_kind_character is_valid_registry_name_character is_blank is_whitespace
    is_ascii_alphanumeric text_eq
inserts_sweep = refl

refuses_newer : (insert one_record newer).1 ≡ one_record
unfolding insert insert_checked insert_validated find_ref validate_registry_record
    validate_schema_version validate_kind validate_registry_name validate_non_empty_field
    is_valid_kind_character is_valid_registry_name_character is_blank is_whitespace
    is_ascii_alphanumeric text_eq has_identity record_eq
refuses_newer = refl

Registered-validate_example :
    let g = (insert (insert empty sweep).1 newer).1 in
    (validate g ≡ ok tt) × (validate_no_conflicts g ≡ ok tt)
Registered-validate_example =
    Registered-validate (insert (insert empty sweep).1 newer).1
      (Registered.step (insert empty sweep).1 newer (Registered.step empty sweep Registered.start))

other_identity : has_identity (txt "study") (txt "sweep") sweep ≡ false
unfolding has_identity text_eq
other_identity = refl

insert_lem_example :
    Answers empty sweep (insert empty sweep).0 (insert empty sweep).1
    × (find_ref (insert empty sweep).1 (txt "study") (txt "sweep")
        ≡ find_ref empty (txt "study") (txt "sweep"))
insert_lem_example = insert_lem empty sweep (txt "study") (txt "sweep") other_identity
