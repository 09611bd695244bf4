-- ===== src/Session/Chain.antt =====
-- The chain of compactions in procedures/session_reset.py: each transcript's header names its
-- predecessor. Paths are resolved ones: the sessions directory holds no symbolic links.
pub mod Depth
pub mod Lineage
use dinomem.Prelude.{
  ℕ, zero, suc, ◌+◌, Bool, true, false, ◌&&◌, ◌||◌, not, Option, none, some, List, [], ◌∷◌, ltb,
  leb, ◌==◌, max, if◌then◌else◌, length, any,
}
use dinomem.Prelude.Text.{Text, text_eq}
use dinomem.Session.Clean.{
  Line, blank, malformed, broken, entry, session, compaction, message, event, get_session_header,
}

-- The transcripts, by path.
abbrev pub Files : Type 0
Files = List (Text × List Line)

unfoldable pub read_file : Text → Files → Option (List Line)
read_file path [] = none
read_file path ((p, lines) ∷ files) = if text_eq p path then some lines else read_file path files

unfoldable pub is_seen : Text → List Text → Bool
is_seen path seen = any (text_eq path) seen

-- `header.get('parentSession')` of a header, none where it is missing or empty
unfoldable pub truthy : Option (Option Text) → Option Text
truthy none = none
truthy (some none) = none
truthy (some (some [])) = none
truthy (some (some (c ∷ p))) = some (c ∷ p)

unfoldable pub parent_of : List Line → Option Text
parent_of lines = truthy (get_session_header lines)

-- The loop of `get_compaction_depth`; `none` when the fuel has run out.
unfoldable pub depth_loop : ℕ → Files → List Text → ℕ → Text → Option ℕ
depth_loop zero files seen depth current = none
depth_loop (suc fuel) files seen depth current = elim (read_file current files) [
  | none ↦ some depth
  | some lines ↦ elim (is_seen current seen) [
    | true ↦ some depth
    | false ↦ elim (parent_of lines) [
      | none ↦ some depth
      | some parent ↦ depth_loop fuel files (current ∷ seen) (suc depth) parent
    ]
  ]
]

-- `get_compaction_depth`
unfoldable pub get_compaction_depth : Files → Text → Option ℕ
unfolding depth_loop
get_compaction_depth files session_file = depth_loop (suc (length files)) files [] 0 session_file

-- the compaction records of a transcript, and its first header; a value on which `.get` raises ends
-- the reading
unfoldable pub scan_file : List Line → ℕ × Option (Option Text)
scan_file [] = (0, none)
scan_file (blank ∷ lines) = scan_file lines
scan_file (malformed ∷ lines) = scan_file lines
scan_file (broken ∷ lines) = (0, none)
scan_file (entry (session parent) ∷ lines) = ((scan_file lines).0, some parent)
scan_file (entry compaction ∷ lines) = (suc (scan_file lines).0, (scan_file lines).1)
scan_file (entry (message role content) ∷ lines) = scan_file lines
scan_file (entry event ∷ lines) = scan_file lines

unfoldable pub inline_count : Option (List Line) → ℕ
inline_count none = 0
inline_count (some lines) = (scan_file lines).0

-- `get_active_compaction_count`
unfoldable pub get_active_compaction_count : Files → Text → Option ℕ
get_active_compaction_count files session_file =
    let count = inline_count (read_file session_file files) in
    if count == 0 then get_compaction_depth files session_file else some count

abbrev pub max_hops : ℕ
max_hops = 40

-- The loop of `get_lineage_compaction_count`, where `left` is MAX_HOPS less the hops.
unfoldable pub lineage_loop : ℕ → Files → List Text → ℕ → ℕ → Text → ℕ
lineage_loop zero files seen hops best current = best
lineage_loop (suc left) files seen hops best current = elim (read_file current files) [
  | none ↦ best
  | some lines ↦ elim (is_seen current seen) [
    | true ↦ best
    | false ↦ elim (truthy (scan_file lines).1) [
      | none ↦ max best (scan_file lines).0
      | some parent ↦
          lineage_loop left files (current ∷ seen) (suc hops)
            (max (max best (scan_file lines).0) (suc hops)) parent
    ]
  ]
]

-- `get_lineage_compaction_count`
unfoldable pub get_lineage_compaction_count : Files → Text → ℕ
unfolding lineage_loop
get_lineage_compaction_count files session_file = lineage_loop max_hops files [] 0 0 session_file
