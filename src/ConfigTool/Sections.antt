-- ===== src/ConfigTool/Sections.antt =====
-- Sections of a root file: `_is_section_boundary` and `_find_section` of tools/config_tool.py.
-- `str.isalpha` of a character is a parameter, Python's table of letters.
pub mod Found
use dinomem.Prelude.{
  ℕ, suc, ◌+◌, Bool, true, false, ◌&&◌, ◌||◌, Option, none, some, List, [], ◌∷◌, ◌++◌, ◌==◌, length,
  drop, if◌then◌else◌,
}
use dinomem.Prelude.Text.{Text, codes, strip, starts_with, contains}

-- `s.lstrip("#")`
unfoldable pub lstrip_hashes : Text → Text
lstrip_hashes [] = []
lstrip_hashes (c ∷ s) = let rest = lstrip_hashes s in if c == b'#' then rest else c ∷ s

-- the key that is searched
unfoldable pub section_name : Text → Text
unfolding lstrip_hashes
section_name section_key =
    let key = strip section_key in
    if starts_with (codes "#") key then strip (lstrip_hashes key) else key

-- the test of the line that starts the section
unfoldable pub starts_section : Text → Text → Bool
starts_section key line =
    starts_with (key ++ codes ":") line || starts_with (codes "## " ++ key) line

-- `_is_section_boundary`
unfoldable pub is_section_boundary : (ℕ → Bool) → Text → Bool
is_section_boundary is_alpha [] = false
is_section_boundary is_alpha (c ∷ s) =
    starts_with (codes "## ") (c ∷ s) || is_alpha c && contains (codes ":") (c ∷ s)

-- the index of the first line that passes the test
unfoldable pub first_index : (Text → Bool) → List Text → Option ℕ
first_index p [] = none
first_index p (l ∷ ls) =
    let rest = elim (first_index p ls) as (λ _. Option ℕ) [ none ↦ none | some i ↦ some (suc i) ] in
    if p l then some 0 else rest

abbrev pub or_else : Option ℕ → ℕ → ℕ
or_else none d = d
or_else (some i) d = i

-- `_find_section`: the first line of the section and the line behind it
unfoldable pub find_section : (ℕ → Bool) → List Text → Text → Option (ℕ × ℕ)
find_section is_alpha lines section_key =
    elim (first_index (starts_section (section_name section_key)) lines) [
      | none ↦ none
      | some start ↦
          let behind = drop (suc start) lines in
          some (
            start,
            suc start + or_else (first_index (is_section_boundary is_alpha) behind) (length behind),
          )
    ]
