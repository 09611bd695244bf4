-- ===== src/ConfigTool/Guard.antt =====
-- The gate in front of every write, the sizes that are warned about, and the normal form of what is
-- written: `_guard`, `_forbidden_target_error`, `validate`, `check_size`, `_normalize` and
-- `_is_duplicate` of tools/config_tool.py.
use dinomem.Prelude.{
  ℕ, ◌+◌, Bool, true, false, ◌&&◌, ◌||◌, not, Option, none, some, List, [], ◌∷◌, ◌++◌, leb, ltb,
  ◌==◌, length, any, if◌then◌else◌,
}
use dinomem.Prelude.Text.{Text, codes, text_eq, strip, rstrip, split, join, contains}
use dinomem.Prelude.Text.Lines.{translate, next_is_newline}
use dinomem.Retention.Run.{Directory}
use dinomem.Retention.Run.Files.{find_file}

abbrev pub allowed_files : List Text
allowed_files =
    codes "SOUL.md"
    ∷ codes "IDENTITY.md"
    ∷ codes "AGENTS.md"
    ∷ codes "TOOLS.md"
    ∷ codes "USER.md"
    ∷ []

unfoldable pub is_allowed : Text → Bool
is_allowed filename = any (text_eq filename) allowed_files

abbrev pub user_managed_begin : Text
user_managed_begin = codes "<!-- BEGIN:dinomem-user-map -->"

abbrev pub user_managed_end : Text
user_managed_end = codes "<!-- END:dinomem-user-map -->"

pub data Refusal : Type 0 where
  not_allowed auto_generated managed_block invalid_content : Refusal

-- `validate`
unfoldable pub validate : Text → Bool
validate content = not (any (λ c. c == 0) content) && leb (length content) 50000

-- `_forbidden_target_error`
unfoldable pub forbidden_target_error : Text → Text → Option Refusal
forbidden_target_error filename content =
    if text_eq filename (codes "MEMORY.md")
    then some auto_generated
    else if text_eq filename (codes "USER.md")
        && (contains user_managed_begin content || contains user_managed_end content)
    then some managed_block
    else none

abbrev or_empty : Option Text → Text
or_empty none = []
or_empty (some content) = content

abbrev is_invalid : Option Text → Bool
is_invalid none = false
is_invalid (some content) = not (validate content)

abbrev or_refusal : Option Refusal → Option Refusal → Option Refusal
or_refusal none r = r
or_refusal (some r) s = some r

-- `_guard`: none to proceed
unfoldable pub guard : Text → Option Text → Option Refusal
guard filename content =
    if not (is_allowed filename)
    then some not_allowed
    else or_refusal (forbidden_target_error filename (or_empty content))
        (if is_invalid content then some invalid_content else none)

-- `content.replace("\r\n", "\n")`
unfoldable pub replace_crlf : Text → Text
replace_crlf [] = []
replace_crlf (c ∷ s) =
    let rest = replace_crlf s in if c == 13 && next_is_newline s then rest else c ∷ rest

abbrev is_blank : Text → Bool
is_blank l = elim (strip l) [ [] ↦ true | c ∷ s ↦ false ]

-- the loop that pops blank lines in front
unfoldable pub drop_blank : List Text → List Text
drop_blank [] = []
drop_blank (l ∷ ls) = let rest = drop_blank ls in if is_blank l then rest else l ∷ ls

-- `_normalize`
unfoldable pub normalize : Text → Text
normalize content = rstrip (join (10 ∷ []) (drop_blank (split 10 (replace_crlf content))))

-- `_is_duplicate`
unfoldable pub is_duplicate : Text → Text → Bool
is_duplicate content existing = contains (normalize content) existing

-- The limits that `_resolve_caps` reads from openclaw.json, and the shares of them that warn.
pub record Caps : Type 0 where
  pub max_file_chars : ℕ
  pub max_total_chars : ℕ
  pub warn_file_chars : ℕ
  pub warn_total_chars : ℕ

pub data Warning : Type 0 where
  file_over file_near total_over total_near : Warning

-- `path.read_text()` of a root file, by what was written; none where it does not exist
unfoldable pub read_text : Text → Directory → Option Text
read_text filename root = elim (find_file filename root) [
  | none ↦ none
  | some s ↦ some (translate s)
]

-- `... if path.exists() else ""`
unfoldable pub existing_text : Text → Directory → Text
existing_text filename root = or_empty (read_text filename root)

unfoldable pub other_sizes : Text → Directory → List Text → ℕ
other_sizes filename root [] = 0
other_sizes filename root (f ∷ files) =
    let rest = other_sizes filename root files in
    if text_eq f filename then rest else length (existing_text f root) + rest

-- `check_size`
unfoldable pub check_size : Caps → Directory → Text → Text → List Warning
check_size caps root filename new_content =
    let projected = length (existing_text filename root) + length new_content in
    let total = projected + other_sizes filename root allowed_files in
    (if ltb caps.max_file_chars projected
      then file_over ∷ []
      else if ltb caps.warn_file_chars projected
      then file_near ∷ []
      else [])
    ++ (if ltb caps.max_total_chars total
        then total_over ∷ []
        else if ltb caps.warn_total_chars total
        then total_near ∷ []
        else [])
