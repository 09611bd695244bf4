-- ===== src/Cleanup/Index.antt =====
-- The index MEMORY.md in procedures/memory_cleanup.py: `trim_memory_index`, and the rewriting of the two
-- marked sections by `update_recency_section` and `update_open_projects_section`.
pub mod Trimmed
use dinomem.Prelude.{
  ℕ, suc, ◌+◌, ◌-◌, Bool, true, false, ◌&&◌, ◌||◌, not, Option, none, some, List, [], ◌∷◌, ◌++◌,
  ltb, leb, ◌==◌, length, any, all, map, take, drop, if◌then◌else◌,
}
use dinomem.Prelude.Text.{Text, codes, lstrip, strip, rstrip, starts_with, contains, join}
use dinomem.Prelude.Text.Lines.{splitlines}

abbrev pub newline_text : Text
newline_text = 10 ∷ []

abbrev pub max_single_line_chars : ℕ
max_single_line_chars = 800

-- the part in front of the last space, if there is one
unfoldable pub before_last_space : Text → Option Text
before_last_space [] = none
before_last_space (c ∷ s) = elim (before_last_space s) as (λ _. Option Text) [
  | some front ↦ some (c ∷ front)
  | none ↦ if c == b' ' then some [] else none
]

abbrev or_text : Option Text → Text → Text
or_text none s = s
or_text (some front) s = front

-- A line of over 800 characters, cut at a word and marked.
unfoldable pub collapse_line : Text → Text
collapse_line ln =
    if ltb max_single_line_chars (length ln)
    then (let front = take max_single_line_chars ln in
        or_text (before_last_space front) front ++ codes " …")
    else ln

-- the content after the safety net
unfoldable pub collapse : Text → Text
collapse content =
    let lines = splitlines content in
    if any (λ ln. ltb max_single_line_chars (length ln)) lines
    then join newline_text (map collapse_line lines)
    else content

-- `[\w]+\]`, where at least one character is read before; `is_word` is what `\w` matches
unfoldable pub word_close : (ℕ → Bool) → Text → Bool
word_close is_word [] = false
word_close is_word (c ∷ s) = c == b']' || is_word c && word_close is_word s

-- `re.match(r'^\[[\w]+\]', line.strip())`
unfoldable pub is_index_entry : (ℕ → Bool) → Text → Bool
is_index_entry is_word line = elim (strip line) as (λ _. Bool) [
  | [] ↦ false
  | c ∷ s ↦
      c == b'[' && elim s as (λ _. Bool) [ [] ↦ false | d ∷ r ↦ is_word d && word_close is_word r ]
]

-- `header_end`, and 0 if there is no entry
unfoldable pub index_of : (Text → Bool) → List Text → Option ℕ
index_of p [] = none
index_of p (l ∷ ls) = elim (index_of p ls) as (λ _. Option ℕ) [
  | none ↦ if p l then some 0 else none
  | some i ↦ if p l then some 0 else some (suc i)
]

abbrev pub or_number : Option ℕ → ℕ → ℕ
or_number none n = n
or_number (some i) n = i

unfoldable pub header_end : (ℕ → Bool) → List Text → ℕ
header_end is_word lines = or_number (index_of (is_index_entry is_word) lines) 0

-- the loop that pops the first entry
unfoldable pub pop_entries : ℕ → List Text → List Text → List Text
pop_entries limit header [] = []
pop_entries limit header (e ∷ entries) =
    let rest = pop_entries limit header entries in
    if ltb limit (length (join newline_text (header ++ (e ∷ entries)))) then rest else e ∷ entries

-- the content behind the test of the limit
unfoldable pub trim_lines : (ℕ → Bool) → ℕ → List Text → Text
trim_lines is_word limit lines =
    let end = header_end is_word lines in
    join newline_text (take end lines ++ pop_entries limit (take end lines) (drop end lines))

-- `trim_memory_index`, of an index that there is; `limit` is MAX_INDEX_CHARS
unfoldable pub trim_memory_index : (ℕ → Bool) → ℕ → Text → Text
trim_memory_index is_word limit content =
    let fixed = collapse content in
    if leb (length fixed) limit then fixed else trim_lines is_word limit (splitlines fixed)

-- `content.index(part)`
unfoldable pub find_part : Text → Text → Option ℕ
find_part part [] = if starts_with part [] then some 0 else none
find_part part (c ∷ s) = elim (find_part part s) as (λ _. Option ℕ) [
  | none ↦ if starts_with part (c ∷ s) then some 0 else none
  | some i ↦ if starts_with part (c ∷ s) then some 0 else some (suc i)
]

abbrev without_range : Text → ℕ → Option ℕ → ℕ → Option Text
without_range content start none size = none
without_range content start (some end) size =
    some (rstrip (take start content) ++ (10 ∷ lstrip (drop (end + size) content)))

-- The removal of the old section; none is the ValueError of `index` for a start with no end.
unfoldable pub drop_section : Text → Text → Text → Option Text
drop_section first last content = elim (find_part first content) [
  | none ↦ some content
  | some start ↦ without_range content start (find_part last content) (length last)
]

-- `insert_at`: the line in front of which the section goes. The recency section also takes a line in the
-- first place, if it starts with "## Searchable".
unfoldable pub insert_at : Bool → ℕ → List Text → ℕ
insert_at searchable i [] = i
insert_at searchable i (line ∷ lines) =
    let later = insert_at searchable (suc i) lines in
    if searchable && starts_with (codes "## Searchable") line
      || starts_with (codes "## ") line && ltb 0 i
    then i
    else later

unfoldable pub insert_section : Bool → Text → Text → Text
insert_section searchable block content =
    let lines = splitlines content in
    let at = insert_at searchable 0 lines in
    join newline_text (take at lines ++ ([] ∷ block ∷ [] ∷ drop at lines))

abbrev with_block : Bool → Option Text → Option Text → Option Text
with_block searchable block none = none
with_block searchable none (some content) = some content
with_block searchable (some block) (some content) = some (insert_section searchable block content)

abbrev pub recency_marker_start : Text
recency_marker_start = codes "<!-- dinomem:recency-start -->"

abbrev pub recency_marker_end : Text
recency_marker_end = codes "<!-- dinomem:recency-end -->"

abbrev pub openproj_marker_start : Text
openproj_marker_start = codes "<!-- dinomem:open-projects-start -->"

abbrev pub openproj_marker_end : Text
openproj_marker_end = codes "<!-- dinomem:open-projects-end -->"

-- `update_recency_section`, of an index that there is, with the section to show, if there is one
unfoldable pub update_recency_section : Option Text → Text → Option Text
update_recency_section recency content =
    with_block true recency (drop_section recency_marker_start recency_marker_end content)

-- `update_open_projects_section`
unfoldable pub update_open_projects_section : Option Text → Text → Option Text
update_open_projects_section block content =
    with_block false block (drop_section openproj_marker_start openproj_marker_end content)
