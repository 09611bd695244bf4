-- ===== src/CommitReason.antt =====
-- The hint for the subject of the next commit: procedures/commit_reason.py, on the file that holds the hints.
pub mod Subject
pub mod Hints
mod Tests
use dinomem.Prelude.{
  ℕ, Bool, true, false, not, ◌||◌, Option, none, some, List, [], ◌∷◌, ◌++◌, any, filter, length,
  take, ltb, leb, if◌then◌else◌,
}
use dinomem.Prelude.Text.{Text, codes, text_eq, is_space, strip, rstrip, cons_first, join}
use dinomem.Prelude.Text.Lines.{splitlines}

abbrev pub in_word : Text → Bool
in_word [] = false
in_word (c ∷ s) = not (is_space c)

-- `str.split()`
unfoldable pub words : Text → List Text
words [] = []
words (c ∷ s) =
    let rest = words s in
    if is_space c then rest else if in_word s then cons_first c rest else (c ∷ []) ∷ rest

-- a title of at most 72 characters
unfoldable pub bounded : Text → Text
bounded s = if ltb 72 (length s) then rstrip (take 71 s) ++ (0x2026 ∷ []) else s

-- `clean_subject`
unfoldable pub clean_subject : Text → Text
clean_subject text = bounded (join (codes " ") (words text))

-- The hints that are there; a file that cannot be read has none.
unfoldable pub existing_hints : Bool → Option Text → List Text
existing_hints can_read none = []
existing_hints can_read (some content) =
    if can_read then filter (λ l. not (text_eq (strip l) [])) (splitlines content) else []

unfoldable pub hint_text : List Text → Text
hint_text lines = join (codes "\n") lines ++ codes "\n"

-- `drop`: the answer and the file, on whether the file can be read and written
unfoldable pub drop_reason : Bool → Bool → Text → Option Text → Bool × Option Text
drop_reason can_read can_write reason file =
    let subject = clean_subject reason in
    let existing = existing_hints can_read file in
    if text_eq subject []
    then (false, file)
    else if any (text_eq subject) existing || leb 20 (length existing)
    then (true, file)
    else if can_write
    then (true, some (hint_text (existing ++ (subject ∷ []))))
    else (false, file)
