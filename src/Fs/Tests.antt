-- ===== src/Fs/Tests.antt =====
-- Candidates of a project.
use research_lab.Prelude.{◌≡◌, refl, [], false}
use research_lab.Prelude.Text.{Text, txt, split, cons_head, starts_with, text_eq}
use research_lab.Prelude.Outcome.{ok, is_ok}
use research_lab.Artifact.Layout.{join}
use research_lab.Fs.{
  components, pieces, piece, is_absolute, strip_components, absolute_without_canonicalizing, joined,
  ensure_child_path,
}
use research_lab.Fs.Inside.{IsBelow, ensure_child_path-IsBelow}

accepts : ensure_child_path (ok []) (txt "/p") (txt "a/./b.txt") ≡ ok (txt "/p/a/./b.txt")
unfolding ensure_child_path components pieces piece is_absolute strip_components
    absolute_without_canonicalizing joined join split cons_head starts_with text_eq
accepts = refl

escape_test : is_ok (ensure_child_path (ok []) (txt "/p") (txt "a/../../etc")) ≡ false
unfolding ensure_child_path components pieces piece is_absolute strip_components
    absolute_without_canonicalizing joined join split cons_head starts_with text_eq
escape_test = refl

outside_test : is_ok (ensure_child_path (ok []) (txt "/p") (txt "/project")) ≡ false
unfolding ensure_child_path components pieces piece is_absolute strip_components
    absolute_without_canonicalizing joined join split cons_head starts_with text_eq
outside_test = refl

ensure_child_path-IsBelow_example :
    (root_abs : Text) × (absolute_without_canonicalizing (ok []) (txt "/p") ≡ ok root_abs)
    × IsBelow root_abs (txt "/p/a/./b.txt")
ensure_child_path-IsBelow_example =
    ensure_child_path-IsBelow (ok []) (txt "/p") (txt "a/./b.txt") (txt "/p/a/./b.txt") accepts
