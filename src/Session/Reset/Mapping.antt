-- ===== src/Session/Reset/Mapping.antt =====
-- What a reset does to the transcript and to its mapping.
use dinomem.Prelude.{
  ◌≡◌, refl, ◌∙◌, ◌≢◌, inl, inr, Bool, true, false, Option, none, some, List, [], ◌∷◌,
  if◌then◌else◌, arith, Bool-cases, Option-cases,
}
use dinomem.Prelude.Text.{Text, text_eq, text_eq_iff}
use dinomem.Session.Clean.{Line, Entry, cleanup_jsonl_content, written}
use dinomem.Session.Chain.{Files, read_file}
use dinomem.Session.Filter.{SessionData, Sessions}
use dinomem.Session.Archive.{Place, archive_path, unlink, write_file, archive_file}
use dinomem.Session.Archive.Measure.{read-write_ne}
use dinomem.Session.Flush.{
  Extraction, IsFlushed, force_flush_archive, force_flush_archive-IsFlushed,
}
use dinomem.Session.Reset.{
  Store, ArchiveInfo, nothing, reset, reset_deleted, archive_session, session_path, drop_mapping,
  delete_key, archived_name, reset_session,
}

pub read-unlink_ne :
    (path q : Text) (files : Files)
    → text_eq q path ≡ false
    → read_file path (unlink q files) ≡ read_file path files
unfolding read_file unlink
read-unlink_ne path q [] n = refl
read-unlink_ne path q ((p, l) ∷ files) n =
    ground (
      arith,
      text_eq_iff p q,
      text_eq_iff p path,
      text_eq_iff q path,
      read-unlink_ne path q files n,
    )

-- What may have become of a transcript that was at `path`.
pub data IsSaved (w : Place) (path : Text) (lines : List Line) (info : ArchiveInfo) (files : Files)
    : Type 0 where
  in_archive :
      info ≡ reset
      → read_file (archive_path w path) files ≡ some (written (cleanup_jsonl_content lines).0)
      → IsSaved w path lines info files
  nothing_kept :
      info ≡ reset_deleted → (cleanup_jsonl_content lines).0 ≡ [] → IsSaved w path lines info files
  in_place : info ≡ nothing → read_file path files ≡ some lines → IsSaved w path lines info files

-- A reset's archiving of one transcript changes no other, but the archive itself.
pub archive_session-others :
    (w : Place) (path q : Text) (files : Files)
    → text_eq path q ≡ false
    → text_eq (archive_path w path) q ≡ false
    → read_file q (archive_session w path files).1 ≡ read_file q files
unfolding archive_session
archive_session-others w path q files n m = elim (Option-cases (read_file path files)) [
  | inl gone ↦ rw (gone, archive_session)
  | inr (lines, found) ↦ rw (found, archive_session) (go (cleanup_jsonl_content lines).0 lines refl)
]
  where
    go :
        (es : List Entry) (lines : List Line)
        → (cleanup_jsonl_content lines).0 ≡ es
        → read_file q (archive_file w path lines files).1 ≡ read_file q files
    go [] lines e = unfold archive_file in rw (e, archive_file) (read-unlink_ne q path files n)
    go (x ∷ es) lines e =
        unfold archive_file in
        elim (Bool-cases (w.write_fails (archive_path w path))) [
          | inl f ↦ rw (e, archive_file) (rw f)
          | inr k ↦
              rw (e, archive_file)
                (rw k (
                  read-unlink_ne q path (write_file (archive_path w path) (written (x ∷ es)) files)
                    n
                  ∙ read-write_ne q (archive_path w path) (written (x ∷ es)) files m))
        ]

-- `sessions[key]`
unfoldable pub find_session : Text → Sessions → Option SessionData
find_session key [] = none
find_session key ((k, d) ∷ sessions) = if text_eq k key then some d else find_session key sessions

find-delete_key_ne :
    (key j : Text) (sessions : Sessions)
    → text_eq key j ≡ false
    → find_session j (delete_key key sessions) ≡ find_session j sessions
unfolding find_session delete_key
find-delete_key_ne key j [] n = refl
find-delete_key_ne key j ((k, d) ∷ sessions) n = ground (
  arith,
  text_eq_iff k key,
  text_eq_iff k j,
  text_eq_iff key j,
  find-delete_key_ne key j sessions n,
)

unfoldable pub found_in : Text → Option Sessions → Option SessionData
found_in key none = none
found_in key (some sessions) = find_session key sessions

module _ (w : Place) (force_mode : Bool) (extraction : Text → Extraction) (key : Text)
    (d : SessionData) (s : Store) where
  -- No reset removes the mapping of another session.
  pub reset_session-others :
      (j : Text)
      → text_eq key j ≡ false
      → found_in j (reset_session w force_mode extraction key d s).1.sessions
        ≡ found_in j s.sessions
  unfolding reset_session drop_mapping found_in
  reset_session-others j n = others s.sessions
    where
      name : Text
      name = archived_name w (session_path w.dir d)

      others :
          (o : Option Sessions)
          → found_in j (
              drop_mapping force_mode
                (force_flush_archive name (extraction name))
                key
                (reset_session w force_mode extraction key d s).0
                o)
            ≡ found_in j o
      others none = ground arith
      others (some ss) = ground (arith, find-delete_key_ne key j ss n)

  -- In force mode, where a reset archived the transcript and changed the mappings, extract_memory.py was there and its
  -- run came to an end, without an error and in its time, and then the log of processed archives named the archive, or
  -- else the exit code was 0.
  pub force_reset-IsFlushed :
      force_mode ≡ true
      → (reset_session w force_mode extraction key d s).0 ≡ reset
      → (reset_session w force_mode extraction key d s).1.sessions ≢ s.sessions
      → IsFlushed
          (archived_name w (session_path w.dir d))
          (extraction (archived_name w (session_path w.dir d)))
  unfolding reset_session drop_mapping
  force_reset-IsFlushed f i changed =
      elim (Bool-cases (force_flush_archive name (extraction name))) [
        | inl y ↦ force_flush_archive-IsFlushed name (extraction name) y
        | inr n ↦ absurd (changed (ground (arith, n)))
      ]
    where
      name : Text
      name = archived_name w (session_path w.dir d)

  -- Where nothing was archived, as when the write of the archive failed, the mapping is deleted in both
  -- modes with no flush.
  pub reset_unarchived_drops :
      (sessions : Sessions)
      → s.sessions ≡ some sessions
      → (reset_session w force_mode extraction key d s).0 ≡ nothing
      → (reset_session w force_mode extraction key d s).1.sessions ≡ some (delete_key key sessions)
  unfolding reset_session drop_mapping
  reset_unarchived_drops sessions e i = ground arith
