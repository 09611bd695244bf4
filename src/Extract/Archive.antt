-- ===== src/Extract/Archive.antt =====
-- The text of an archive in chunks, and the chunks in windows: `extract_single_archive_content` and the
-- windowing of `process_single_archive` in procedures/extract_memory.py. A turn is a line of the archive
-- after `json.loads` and the defaults of `get`; lines that are no JSON are left out before. `str.upper` is
-- a parameter.
pub mod Whole
use dinomem.Prelude.{
  ℕ, ◌+◌, Bool, true, false, not, ◌&&◌, ◌||◌, List, [], ◌∷◌, ◌++◌, ltb, leb, if◌then◌else◌, length,
  any,
}
use dinomem.Prelude.Text.{Text, codes, text_eq, strip}
use dinomem.Prelude.Text.Lines.{join_all}
use dinomem.Session.Clean.{Content, items, plain, neither, joined_items}

pub record Turn : Type 0 where
  pub entry_type : Text
  pub summary : Text
  pub role : Text
  pub content : Content

abbrev pub archive_chunk_max_chars : ℕ
archive_chunk_max_chars = 40000

abbrev pub window_max_chars : ℕ
window_max_chars = 80000

unfoldable pub is_compaction : Turn → Bool
is_compaction t = text_eq t.entry_type (codes "compaction")

-- `entries[compaction_indices[-1]:]`, if there is one
unfoldable pub from_last_compaction : List Turn → List Turn
unfolding is_compaction
from_last_compaction [] = []
from_last_compaction (t ∷ ts) =
    let rest = from_last_compaction ts in if any is_compaction ts then rest else t ∷ ts

-- The texts of a message, one behind the other.
unfoldable pub message_text : Content → Text
message_text (items l) = joined_items l
message_text (plain t) = t
message_text neither = []

abbrev pub is_blank_text : Text → Bool
is_blank_text s = elim (strip s) [ [] ↦ true | _ ↦ false ]

-- What a turn adds to the current chunk; nothing for a blank one.
unfoldable pub piece : (Text → Text) → Turn → Text
piece upper t =
    if is_compaction t
    then (if is_blank_text t.summary
        then []
        else codes "[HISTORY - COMPACTED CONTEXT]:\n" ++ (strip t.summary ++ codes "\n\n"))
    else if is_blank_text (message_text t.content)
    then []
    else codes "["
      ++ (upper t.role ++ (codes "]: " ++ (strip (message_text t.content) ++ codes "\n\n")))

-- `chunks`, `current_chunk` and `current_chars`
pub record Chunking : Type 0 where
  pub chunks : List Text
  pub current : List Text
  pub chars : ℕ

abbrev pub no_chunks : Chunking
no_chunks = record { chunks = []; current = []; chars = 0 }

-- `if current_chunk: chunks.append("".join(current_chunk))`
abbrev pub close : List Text → List Text → List Text
close chunks [] = chunks
close chunks (p ∷ ps) = chunks ++ (join_all (p ∷ ps) ∷ [])

unfoldable pub cut : Chunking → Chunking
cut s = record { chunks = close s.chunks s.current; current = []; chars = 0 }

unfoldable pub add_piece : Text → Chunking → Chunking
add_piece [] s = s
add_piece (c ∷ p) s = record s {
  current = s.current ++ ((c ∷ p) ∷ []);
  chars = s.chars + length (c ∷ p);
}

unfoldable pub is_boundary : Turn → Bool
is_boundary t =
    text_eq t.entry_type (codes "session_start") || text_eq t.entry_type (codes "session")

abbrev pub is_full : Chunking → Bool
is_full s = leb archive_chunk_max_chars s.chars

-- a message, behind the test of the boundary; a blank one is no reason to cut
unfoldable pub add_message : Text → Chunking → Chunking
add_message [] s = s
add_message (c ∷ p) s =
    if is_full (add_piece (c ∷ p) s) then cut (add_piece (c ∷ p) s) else add_piece (c ∷ p) s

-- one round of the loop
unfoldable pub take_turn : (Text → Text) → Turn → Chunking → Chunking
take_turn upper t s =
    if is_compaction t
    then add_piece (piece upper t) s
    else add_message (piece upper t) (if is_boundary t && is_full s then cut s else s)

unfoldable pub take_turns : (Text → Text) → List Turn → Chunking → Chunking
take_turns upper [] s = s
take_turns upper (t ∷ ts) s = take_turns upper ts (take_turn upper t s)

-- `extract_single_archive_content` of a file that can be read
unfoldable pub extract_single_archive_content : (Text → Text) → List Turn → List Text
extract_single_archive_content upper turns =
    (cut (take_turns upper (from_last_compaction turns) no_chunks)).chunks

abbrev pub total_chars : List Text → ℕ
total_chars [] = 0
total_chars (c ∷ cs) = length c + total_chars cs

abbrev pub is_nonempty : List Text → Bool
is_nonempty [] = false
is_nonempty (c ∷ cs) = true

abbrev pub push_window : List Text → List (List Text) → List (List Text)
push_window [] ws = ws
push_window (c ∷ cs) ws = (c ∷ cs) ∷ ws

-- The loop that fills the windows: `cur` and `cur_len`, and the chunks that are left.
unfoldable pub windows_from : List Text → ℕ → List Text → List (List Text)
windows_from cur cur_len [] = push_window cur []
windows_from cur cur_len (ch ∷ chunks) =
    elim (is_nonempty cur && ltb window_max_chars (cur_len + length ch)) [
      | true ↦ push_window cur (windows_from (ch ∷ []) (length ch) chunks)
      | false ↦ windows_from (cur ++ (ch ∷ [])) (cur_len + length ch) chunks
    ]

unfoldable pub windows : List Text → List (List Text)
windows chunks = windows_from [] 0 chunks
