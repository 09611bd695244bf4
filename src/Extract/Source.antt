-- ===== src/Extract/Source.antt =====
-- Whose session an archive is: `_source_id_from_archive` of procedures/extract_memory.py. A line is what is left
-- after `strip`, blank lines left out, with the texts of the session keys that are set, for a session header.
pub mod Majority
use dinomem.Prelude.{
  ℕ, zero, suc, ◌+◌, Bool, true, false, ◌||◌, ◌&&◌, Option, none, some, List, [], ◌∷◌, ◌++◌, leb,
  ltb, ◌==◌, if◌then◌else◌, length, map, any,
}
use dinomem.Prelude.Text.{Text, codes, text_eq}
use dinomem.Authority.Directive.{fold_eq}

pub record ArchiveLine : Type 0 where
  pub text : Text
  pub session_keys : List Text

abbrev is_id_digit : ℕ → Bool
is_id_digit c = leb b'0' c && leb c b'9'

-- `[a-z0-9_-]` under IGNORECASE
unfoldable pub is_key_letter : ℕ → Bool
is_key_letter c =
    leb b'a' c && leb c b'z'
    || leb b'A' c && leb c b'Z'
    || is_id_digit c
    || c == b'_'
    || c == b'-'
    || c == 0x130
    || c == 0x131
    || c == 0x17f
    || c == 0x212a

unfoldable pub behind_folded : Text → Text → Option Text
behind_folded [] s = some s
behind_folded (p ∷ w) [] = none
behind_folded (p ∷ w) (c ∷ s) = let rest = behind_folded w s in if fold_eq p c then rest else none

unfoldable pub id_digits : Text → Text
id_digits [] = []
id_digits (c ∷ s) = let rest = id_digits s in if is_id_digit c then c ∷ rest else []

abbrev some_digits : Text → Option Text
some_digits [] = none
some_digits (d ∷ ds) = some (d ∷ ds)

abbrev id_behind : Option Text → Option Text
id_behind none = none
id_behind (some s) = some_digits (id_digits s)

-- the id, if a match of `_ARCHIVE_DM_RE` has its first colon here and the key in front of it
unfoldable pub direct_id : Text → Text → Option Text
direct_id [] s = none
direct_id (k ∷ key) s = id_behind (behind_folded (codes ":direct:") s)

-- `_ARCHIVE_DM_RE.finditer(text)`: the key and the id of each match. The number is what is left of a match, the
-- first text the letters in front.
unfoldable pub direct_matches : ℕ → Text → Text → List (Text × Text)
direct_matches n key [] = []
direct_matches (suc n) key (c ∷ s) = direct_matches n [] s
direct_matches zero key (c ∷ s) = elim (is_key_letter c) [
  | true ↦ direct_matches zero (key ++ (c ∷ [])) s
  | false ↦ elim (direct_id key (c ∷ s)) [
    | none ↦ direct_matches zero [] s
    | some id ↦ (key, id) ∷ direct_matches (7 + length id) [] s
  ]
]

-- the id of the first session key that has one
unfoldable pub header_id : List Text → Option Text
header_id [] = none
header_id (key ∷ keys) = elim (direct_matches 0 [] key) [
  | [] ↦ header_id keys
  | (k, id) ∷ ms ↦ some id
]

-- `counts[pid] = counts.get(pid, 0) + 1`
unfoldable pub count_id : Text → List (Text × ℕ) → List (Text × ℕ)
count_id id [] = (id, 1) ∷ []
count_id id ((i, n) ∷ counts) =
    let rest = count_id id counts in if text_eq i id then (i, suc n) ∷ counts else (i, n) ∷ rest

abbrev is_own_key : (Text → Text) → Text → Bool
is_own_key lower key =
    any (text_eq (lower key)) (codes "final" ∷ codes "agent" ∷ codes "analyst" ∷ [])

unfoldable pub count_matches :
    (Text → Text) → List (Text × Text) → List (Text × ℕ) → List (Text × ℕ)
count_matches lower [] counts = counts
count_matches lower ((key, id) ∷ ms) counts =
    count_matches lower ms (if is_own_key lower key then counts else count_id id counts)

-- `max(counts.items(), key=lambda kv: kv[1])`, the first of the greatest
unfoldable pub most_counted : List (Text × ℕ) → Option (Text × ℕ)
most_counted [] = none
most_counted ((id, n) ∷ counts) = elim (most_counted counts) [
  | none ↦ some (id, n)
  | some (i, m) ↦ if ltb n m then some (i, m) else some (id, n)
]

abbrev id_of : Option (Text × ℕ) → Option Text
id_of none = none
id_of (some (id, n)) = some id

-- the lines that are left, with the counts so far
unfoldable pub scan_lines : (Text → Text) → List ArchiveLine → List (Text × ℕ) → Option Text
scan_lines lower [] counts = id_of (most_counted counts)
scan_lines lower (line ∷ lines) counts = elim (header_id line.session_keys) [
  | some id ↦ some id
  | none ↦ scan_lines lower lines (count_matches lower (direct_matches 0 [] line.text) counts)
]

-- `_source_id_from_archive` of a file that can be read
unfoldable pub source_id_from_archive : (Text → Text) → List ArchiveLine → Option Text
source_id_from_archive lower lines = scan_lines lower lines []
