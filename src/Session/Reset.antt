-- ===== src/Session/Reset.antt =====
-- `reset_session` of procedures/session_reset.py.
pub mod Mapping
use dinomem.Prelude.{
  ℕ, suc, ◌+◌, Bool, true, false, ◌&&◌, ◌||◌, not, Option, none, some, List, [], ◌∷◌, ◌++◌,
  if◌then◌else◌,
}
use dinomem.Prelude.Text.{Text, codes, text_eq}
use dinomem.Session.Clean.{Line, cleanup_jsonl_content}
use dinomem.Session.Chain.{Files, read_file}
use dinomem.Session.Filter.{SessionData, Sessions}
use dinomem.Session.Flush.{Extraction, force_flush_archive}
use dinomem.Session.Archive.{
  Place, name_of, stem_of, unlink, write_file, Archived, moved, emptied, stuck, archive_file,
  archive_predecessor_chain,
}

-- The transcripts, and sessions.json if it is there.
pub record Store : Type 0 where
  pub files : Files
  pub sessions : Option Sessions

-- `archive_info`: its type, or None
pub data ArchiveInfo : Type 0 where
  nothing reset reset_deleted : ArchiveInfo

-- `sessionFile`, or the path of the id; a missing id is the text "unknown"
unfoldable pub session_path : Text → SessionData → Text
session_path dir d =
    let id = elim d.session_id as (λ _. Text) [ none ↦ codes "unknown" | some i ↦ i ] in
    let by_id = dir ++ (codes "/" ++ (id ++ codes ".jsonl")) in
    elim d.session_file [ none ↦ by_id | some p ↦ elim p [ [] ↦ by_id | c ∷ s ↦ c ∷ s ] ]

abbrev pub info_of : Archived → ArchiveInfo
info_of moved = reset
info_of emptied = reset_deleted
info_of stuck = nothing

-- archiving the session's own transcript
unfoldable pub archive_session : Place → Text → Files → ArchiveInfo × Files
archive_session w path files = elim (read_file path files) [
  | none ↦ (nothing, files)
  | some lines ↦ let (a, after) = archive_file w path lines files in (info_of a, after)
]

-- `key in sessions`, and `del sessions[key]`
unfoldable pub delete_key : Text → Sessions → Sessions
delete_key key [] = []
delete_key key ((k, d) ∷ sessions) =
    if text_eq k key then sessions else (k, d) ∷ delete_key key sessions

abbrev pub is_reset_info : ArchiveInfo → Bool
is_reset_info reset = true
is_reset_info _ = false

-- The mapping goes, but not in force mode where the synchronous flush of the archive is not confirmed.
unfoldable pub drop_mapping : Bool → Bool → Text → ArchiveInfo → Option Sessions → Option Sessions
drop_mapping force_mode flushed key info sessions =
    if force_mode && is_reset_info info && not flushed
    then sessions
    else elim sessions [ none ↦ none | some s ↦ some (delete_key key s) ]

abbrev pub files_after : Files → Option (ℕ × Files) → Files
files_after files none = files
files_after files (some r) = r.1

-- the name of the archive of a session
abbrev pub archived_name : Place → Text → Text
archived_name w path =
    stem_of (name_of path) ++ (codes ".archived.reset." ++ (w.timestamp ++ codes ".jsonl"))

-- `reset_session`; the run of the extraction depends on the archive
unfoldable pub reset_session :
    Place → Bool → (Text → Extraction) → Text → SessionData → Store → ArchiveInfo × Store
reset_session w force_mode extraction key d s =
    let path = session_path w.dir d in
    let files = files_after s.files (archive_predecessor_chain w s.files path) in
    let (info, after) = archive_session w path files in
    (
      info,
      record {
        files = after;
        sessions =
            drop_mapping force_mode
              (force_flush_archive (archived_name w path) (extraction (archived_name w path))) key
              info s.sessions;
      },
    )
