-- ===== src/Retention/Entry.antt =====
-- The lines of a memory file as procedures/memory_retention.py reads them: the frozen marker, the
-- verdict tags, bullets, and the frontmatter seed. A pattern's `\s*` is `lstrip`.
pub mod Space
use dinomem.Prelude.{
  ℕ, ◌+◌, Bool, true, false, ◌&&◌, ◌||◌, not, Option, none, some, List, [], ◌∷◌, ◌==◌, leb,
  if◌then◌else◌,
}
use dinomem.Prelude.Text.{
  Text, codes, text_eq, is_space, lstrip, strip, strip_prefix, starts_with, split,
}

abbrev pub newline : ℕ
newline = 10

abbrev pub frozen_marker : Text
frozen_marker = codes "<!-- frozen: true -->"

-- `for line in f: ...` of `is_frozen`
unfoldable pub frozen_lines : List Text → Bool
frozen_lines [] = false
frozen_lines (line ∷ rest) =
    let later = frozen_lines rest in
    elim (strip line) [ [] ↦ later | c ∷ s ↦ text_eq (c ∷ s) frozen_marker ]

-- `is_frozen`, of a file that can be read
unfoldable pub is_frozen_text : Text → Bool
is_frozen_text content = frozen_lines (split newline content)

pub data Verdict : Type 0 where
  valid invalidated uncertain noise : Verdict

-- the alternatives of `_ENTRY_RE`
unfoldable pub match_tag : Text → Option Verdict
unfolding starts_with
match_tag s =
    if starts_with (codes "[valid]") s
    then some valid
    else if starts_with (codes "[invalidated]") s
    then some invalidated
    else if starts_with (codes "[uncertain]") s
    then some uncertain
    else if starts_with (codes "[noise]") s
    then some noise
    else none

-- `-?`
unfoldable pub skip_dash : Text → Text
skip_dash [] = []
skip_dash (c ∷ s) = if c == b'-' then s else c ∷ s

-- `_ENTRY_RE.match(line)`, by its group
unfoldable pub entry_tag : Text → Option Verdict
unfolding match_tag skip_dash lstrip
entry_tag line = match_tag (lstrip (skip_dash (lstrip line)))

-- `\s+\S`
unfoldable pub space_then_text : Text → Bool
unfolding is_space lstrip
space_then_text [] = false
space_then_text (c ∷ s) = is_space c && elim (lstrip s) [ [] ↦ false | _ ∷ _ ↦ true ]

unfoldable pub bullet : Text → Bool
unfolding space_then_text
bullet [] = false
bullet (c ∷ s) = c == b'-' && space_then_text s

-- `_UNTAGGED_ENTRY_RE.match(line)`
unfoldable pub is_bullet : Text → Bool
unfolding bullet lstrip
is_bullet line = bullet (lstrip line)

abbrev is_valid : Option Verdict → Bool
is_valid (some valid) = true
is_valid _ = false

-- `bool(m)`
abbrev is_match : Option Verdict → Bool
is_match (some _) = true
is_match none = false

-- `_line_is_valid_entry`
unfoldable pub line_is_valid_entry : Text → Bool
line_is_valid_entry line = is_valid (entry_tag line)

-- `_line_is_entry`
unfoldable pub line_is_entry : Text → Bool
line_is_entry line = is_match (entry_tag line) || is_bullet line

-- One letter under IGNORECASE: Unicode folds two more characters with `i`.
fold_eq : ℕ → ℕ → Bool
fold_eq p c =
    c == p || leb b'a' p && leb p b'z' && c + 32 == p || p == b'i' && (c == 0x130 || c == 0x131)

match_fold : Text → Text → Option Text
unfolding fold_eq
match_fold [] s = some s
match_fold (p ∷ ps) [] = none
match_fold (p ∷ ps) (c ∷ s) = let rest = match_fold ps s in if fold_eq p c then rest else none

-- `\s*$`
is_blank : Text → Bool
unfolding lstrip
is_blank s = elim (lstrip s) [ [] ↦ true | _ ∷ _ ↦ false ]

blank_rest : Option Text → Bool
unfolding is_blank
blank_rest none = false
blank_rest (some s) = is_blank s

valid_rest : Option Text → Bool
unfolding blank_rest match_fold lstrip
valid_rest none = false
valid_rest (some s) = blank_rest (match_fold (codes "valid") (lstrip s))

-- `_FRONTMATTER_VALID_RE.match(line)`
unfoldable pub seeds_valid : Text → Bool
unfolding match_fold valid_rest lstrip
seeds_valid line = valid_rest (match_fold (codes "verdict:") (lstrip line))
