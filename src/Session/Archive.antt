-- ===== src/Session/Archive.antt =====
-- Archiving transcripts in procedures/session_reset.py: the names of the archives, writing a cleaned
-- copy and removing the original, and the walk over the predecessors.
pub mod Names
pub mod Measure
use dinomem.Prelude.{
  ℕ, zero, suc, ◌+◌, ◌-◌, Bool, true, false, ◌&&◌, ◌||◌, not, Option, none, some, List, [], ◌∷◌,
  ◌++◌, ◌==◌, leb, ltb, if◌then◌else◌, length, any, take,
}
use dinomem.Prelude.Text.{Text, codes, text_eq, contains}
use dinomem.Session.Clean.{Line, Entry, Stats, cleanup_jsonl_content, written}
use dinomem.Session.Chain.{Files, read_file, is_seen, parent_of}

abbrev pub slash : ℕ
slash = 47

abbrev pub has_slash : Text → Bool
has_slash = any (λ c. c == slash)

-- `Path.name`: what stands behind the last slash
unfoldable pub name_of : Text → Text
name_of [] = []
name_of (c ∷ s) =
    let rest = name_of s in if has_slash s then rest else if c == slash then s else c ∷ s

-- the characters before the last dot, if there is one
unfoldable pub before_dot : Text → Option Text
before_dot [] = none
before_dot (c ∷ s) = elim (before_dot s) [
  | some t ↦ some (c ∷ t)
  | none ↦ if c == b'.' then some [] else none
]

-- `Path.stem`: the name without its suffix; a dot at either end of the name begins no suffix
unfoldable pub stem_of : Text → Text
stem_of name = elim (before_dot name) [
  | none ↦ name
  | some t ↦ if leb 1 (length t) && ltb (length t) (length name - 1) then t else name
]

-- Where the archives go, the second at which the run archives, and which writes raise.
pub record Place : Type 0 where
  pub dir : Text
  pub timestamp : Text
  pub write_fails : Text → Bool

unfoldable pub archive_path : Place → Text → Text
archive_path w path =
    w.dir
    ++ (slash
        ∷ (stem_of (name_of path)
            ++ (codes ".archived." ++ (codes "reset." ++ (w.timestamp ++ codes ".jsonl")))))

-- `'.archived.' not in parent.name`, negated
unfoldable pub is_archived : Text → Bool
is_archived path = contains (codes ".archived.") (name_of path)

-- `path.unlink()`
unfoldable pub unlink : Text → Files → Files
unlink path [] = []
unlink path ((p, lines) ∷ files) =
    let rest = unlink path files in if text_eq p path then rest else (p, lines) ∷ rest

-- a file written anew, or for the first time
unfoldable pub write_file : Text → List Line → Files → Files
write_file path lines [] = (path, lines) ∷ []
write_file path lines ((p, old) ∷ files) =
    if text_eq p path then (path, lines) ∷ files else (p, old) ∷ write_file path lines files

pub data Archived : Type 0 where
  moved emptied stuck : Archived

-- A transcript is cleaned; the cleaned lines are written to the archive and the original is removed. With
-- no lines left it is removed outright; a failed write leaves it.
unfoldable pub archive_file : Place → Text → List Line → Files → Archived × Files
archive_file w path lines files = elim (cleanup_jsonl_content lines).0 [
  | [] ↦ (emptied, unlink path files)
  | e ∷ es ↦
      if w.write_fails (archive_path w path)
      then (stuck, files)
      else (moved, unlink path (write_file (archive_path w path) (written (e ∷ es)) files))
]

-- The parent that a transcript's header names, if it exists.
unfoldable pub next_parent : Text → Files → Option (Text × List Line)
next_parent current files = elim (read_file current files) [
  | none ↦ none
  | some lines ↦ elim (parent_of lines) [
    | none ↦ none
    | some parent ↦ elim (read_file parent files) [ none ↦ none | some l ↦ some (parent, l) ]
  ]
]

-- The loop of `archive_predecessor_chain`; `none` when the fuel has run out.
unfoldable pub chain_loop : ℕ → Place → Files → List Text → ℕ → Text → Option (ℕ × Files)
chain_loop zero w files seen count current = none
chain_loop (suc fuel) w files seen count current = elim (next_parent current files) [
  | none ↦ some (count, files)
  | some (parent, lines) ↦ elim (is_seen parent seen) [
    | true ↦ some (count, files)
    | false ↦ elim (is_archived parent) [
      | true ↦ chain_loop fuel w files (parent ∷ seen) count parent
      | false ↦
          let (result, after) = archive_file w parent lines files in
          elim result [
            | moved ↦ chain_loop fuel w after (parent ∷ seen) (suc count) (archive_path w parent)
            | emptied ↦ some (count, after)
            | stuck ↦ some (count, files)
          ]
    ]
  ]
]

-- `archive_predecessor_chain`
unfoldable pub archive_predecessor_chain : Place → Files → Text → Option (ℕ × Files)
archive_predecessor_chain w files session_file =
    chain_loop (suc (length files + length files)) w files [] 0 session_file
