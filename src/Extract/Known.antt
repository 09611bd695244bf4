-- ===== src/Extract/Known.antt =====
-- What the memory already says: the scan of `_contradiction_check_items` in procedures/extract_memory.py over the
-- memory files and the peers' files. `str.upper` is a parameter. The listings are sorted and leave out
-- MEMORY.md and the files that start with `_`; the files are readable.
use dinomem.Prelude.{
  ℕ, suc, Bool, true, false, ◌&&◌, ◌||◌, not, Option, none, some, List, [], ◌∷◌, ◌++◌, ◌==◌,
  if◌then◌else◌,
}
use dinomem.Prelude.Text.{
  Text, codes, text_eq, is_space, lstrip, strip, rstrip, strip_prefix, starts_with, split,
}
use dinomem.Retention.Run.{Directory}
use dinomem.Cleanup.Passes.{tagged}
use dinomem.Extract.Archive.{is_blank_text}
use dinomem.Extract.Tags.{behind_char}

-- An existing item: its file, line and text, and whether it is a fact of a peer.
pub record Known : Type 0 where
  pub file : Text
  pub line_idx : ℕ
  pub item_text : Text
  pub is_peer : Bool

abbrev known_tags : List Text
known_tags =
    codes "[operational]"
    ∷ codes "[decision]"
    ∷ codes "[correction]"
    ∷ codes "[insight]"
    ∷ codes "[factual]"
    ∷ []

abbrev without_dash : Text → Text
without_dash [] = []
without_dash (c ∷ s) = if c == b'-' then s else c ∷ s

-- `item_pattern.match(line)`
unfoldable pub is_known_item : Text → Bool
is_known_item line = tagged known_tags (lstrip (without_dash (lstrip line)))

unfoldable pub known_lines : Text → ℕ → List Text → List Known
known_lines file i [] = []
known_lines file i (line ∷ lines) =
    let rest = known_lines file (suc i) lines in
    if is_known_item line
    then record { file = file; line_idx = i; item_text = strip line; is_peer = false } ∷ rest
    else rest

unfoldable pub known_files : Directory → List Known
known_files [] = []
known_files ((file, content) ∷ files) = known_lines file 0 (split 10 content) ++ known_files files

-- The group of `^##\s+(.+?)\s*$`.
unfoldable pub heading : Text → Option Text
heading line = elim (strip_prefix (codes "##") line) [
  | none ↦ none
  | some [] ↦ none
  | some (c ∷ []) ↦ none
  | some (c ∷ d ∷ s) ↦ if is_space c then some (strip (d ∷ s)) else none
]

-- `s.endswith(")")`
unfoldable pub ends_closed : Text → Bool
ends_closed [] = false
ends_closed (c ∷ []) = c == b')'
ends_closed (c ∷ d ∷ s) = ends_closed (d ∷ s)

-- Whether `(?:\s*\(conf:.*\))?\s*$` matches.
unfoldable pub ends_fact : Text → Bool
ends_fact s = is_blank_text s || elim (strip_prefix (codes "(conf:") (lstrip s)) as (λ _. Bool) [
  | none ↦ false
  | some rest ↦ ends_closed (rstrip rest)
]

unfoldable pub until_end : Text → Text
until_end [] = []
until_end (c ∷ s) = let rest = until_end s in c ∷ (if ends_fact s then [] else rest)

-- The group of `peer_pattern`, stripped; empty where it does not match.
unfoldable pub peer_fact : Text → Text
peer_fact line = elim (behind_char b'-' (lstrip line)) [
  | none ↦ []
  | some [] ↦ []
  | some (c ∷ s) ↦ if is_space c then strip (until_end (lstrip s)) else []
]

abbrev is_fact_section : Option Text → Bool
is_fact_section none = false
is_fact_section (some section) = text_eq section (codes "FACTS") || text_eq section (codes "BEAT")

abbrev known_fact : Text → ℕ → Text → List Known
known_fact file i [] = []
known_fact file i (c ∷ fact) =
    record { file = file; line_idx = i; item_text = c ∷ fact; is_peer = true } ∷ []

abbrev is_fact_line : Option Text → Text → Bool
is_fact_line section line = is_fact_section section && not (starts_with (codes "<!--") (strip line))

-- The lines of a peer's file, behind the heading of the present section.
unfoldable pub peer_lines : (Text → Text) → Text → ℕ → Option Text → List Text → List Known
peer_lines upper file i section [] = []
peer_lines upper file i section (line ∷ lines) = elim (heading line) [
  | some h ↦ peer_lines upper file (suc i) (some (upper h)) lines
  | none ↦
      (if is_fact_line section line then known_fact file i (peer_fact line) else [])
      ++ peer_lines upper file (suc i) section lines
]

unfoldable pub peer_files : (Text → Text) → Directory → List Known
peer_files upper [] = []
peer_files upper ((file, content) ∷ files) =
    peer_lines upper file 0 none (split 10 content) ++ peer_files upper files

-- `existing_items`
unfoldable pub existing_items : (Text → Text) → Directory → Directory → List Known
existing_items upper memory peers = known_files memory ++ peer_files upper peers
