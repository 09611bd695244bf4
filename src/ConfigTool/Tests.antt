-- ===== src/ConfigTool/Tests.antt =====
-- A small USER.md and TOOLS.md.
use dinomem.Prelude.{ℕ, ◌≡◌, refl, Bool, ◌&&◌, none, some, List, [], ◌∷◌, leb}
use dinomem.Prelude.Text.{
  Text, codes, text_eq, starts_with, strip_prefix, contains, strip, lstrip, rstrip, rstrip_cons,
  split, join, cons_first, is_space,
}
use dinomem.Prelude.Text.Lines.{splitlines_keep, translate, ends_line}
use dinomem.Prelude.Text.Split.{Lacks}
use dinomem.Retention.Run.{Directory}
use dinomem.Retention.Run.Files.{find_file}
use dinomem.ConfigTool.Guard.{
  is_allowed, validate, forbidden_target_error, guard, replace_crlf, drop_blank, normalize, Caps,
  read_text, existing_text, other_sizes, check_size,
}
use dinomem.ConfigTool.Sections.{
  section_name, lstrip_hashes, starts_section, is_section_boundary, first_index, find_section,
}
use dinomem.ConfigTool.Write.{patched, patch_section, patch_found}

abbrev is_letter : ℕ → Bool
is_letter c = leb b'a' c && leb c b'z'

abbrev tools_text : Text
tools_text = codes "## a\nx\n## b\ny\n"

abbrev root : Directory
root = (codes "TOOLS.md", tools_text) ∷ (codes "notes.md", codes "n") ∷ []

abbrev caps : Caps
caps = record {
  max_file_chars = 1000;
  max_total_chars = 5000;
  warn_file_chars = 900;
  warn_total_chars = 4500;
}

tools_allowed : guard (codes "TOOLS.md") (some (codes "z")) ≡ none
unfolding guard is_allowed validate forbidden_target_error contains starts_with strip_prefix text_eq
tools_allowed = refl

abbrev tools_lines : List Text
tools_lines = codes "## a\n" ∷ codes "x\n" ∷ codes "## b\n" ∷ codes "y\n" ∷ []

finds_a : find_section is_letter tools_lines (codes "a") ≡ some (0, 2)
unfolding find_section first_index starts_section is_section_boundary section_name lstrip_hashes
    contains starts_with strip_prefix strip lstrip rstrip is_space
finds_a = refl

reads_tools : read_text (codes "TOOLS.md") root ≡ some tools_text
unfolding read_text find_file text_eq translate
reads_tools = refl

patches_a :
    (patch_section caps is_letter (codes "TOOLS.md") (codes "a") (codes "z") root).0 ≡ patched []
unfolding patch_section patch_found guard is_allowed validate forbidden_target_error contains
    starts_with strip_prefix text_eq read_text find_file translate splitlines_keep ends_line
    cons_first find_section first_index starts_section is_section_boundary section_name
    lstrip_hashes strip lstrip rstrip check_size existing_text other_sizes normalize replace_crlf
    drop_blank split join is_space
patches_a = refl

normal_z : Lacks 13 (normalize (codes "z"))
unfolding normalize replace_crlf drop_blank split join rstrip cons_first strip lstrip is_space
    rstrip_cons
normal_z = (refl, tt)
