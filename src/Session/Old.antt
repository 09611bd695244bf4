-- ===== src/Session/Old.antt =====
-- `get_tracked_files` and `cleanup_old_archives` of procedures/session_reset.py. Times of files are in
-- seconds, and paths are resolved ones.
pub mod Kept
use dinomem.Prelude.{
  ℕ, suc, ◌+◌, ◌-◌, ◌*◌, Bool, true, false, ◌&&◌, not, Option, none, some, List, [], ◌∷◌, ◌++◌, ltb,
  any, if◌then◌else◌,
}
use dinomem.Prelude.Text.{Text, codes, text_eq, starts_with}
use dinomem.Session.Archive.{name_of}
use dinomem.Session.Filter.{SessionData, Sessions}

abbrev pub archive_max_age_days : ℕ
archive_max_age_days = 21

-- the path that a session tracks: its sessionFile, or the one by its sessionId
unfoldable pub tracked_path : Text → SessionData → Option Text
tracked_path sessions_dir d = elim d.session_file [
  | some p ↦ some p
  | none ↦ elim d.session_id [
    | none ↦ none
    | some i ↦ some (sessions_dir ++ (codes "/" ++ (i ++ codes ".jsonl")))
  ]
]

abbrev add_path : Option Text → List Text → List Text
add_path none paths = paths
add_path (some p) paths = p ∷ paths

unfoldable pub tracked_in : Text → Text → Sessions → List Text
tracked_in prefix sessions_dir [] = []
tracked_in prefix sessions_dir ((key, d) ∷ sessions) =
    let rest = tracked_in prefix sessions_dir sessions in
    if starts_with prefix key then add_path (tracked_path sessions_dir d) rest else rest

-- `get_tracked_files`; with no sessions.json nothing is tracked
unfoldable pub get_tracked_files : Text → Text → Option Sessions → List Text
get_tracked_files prefix sessions_dir none = []
get_tracked_files prefix sessions_dir (some sessions) = tracked_in prefix sessions_dir sessions

-- One of `_archive_candidates()`.
pub record Candidate : Type 0 where
  pub path : Text
  pub mtime : ℕ

pub data Fate : Type 0 where
  referenced expired recent : Fate

-- the two tests of the loop
unfoldable pub fate_of : List Text → ℕ → Candidate → Fate
fate_of tracked cutoff_time c =
    if any (text_eq c.path) tracked
    then referenced
    else if ltb c.mtime cutoff_time
    then expired
    else recent

abbrev pub is_expired : Fate → Bool
is_expired expired = true
is_expired _ = false

pub record Cleanup : Type 0 where
  pub deleted : List Text
  pub kept : List Text
  pub deleted_count : ℕ
  pub kept_count : ℕ
  pub referenced_count : ℕ

unfoldable pub count_fate : Fate → Text → Cleanup → Cleanup
count_fate referenced name t = record t {
  kept = t.kept ++ name ∷ [];
  kept_count = suc t.kept_count;
  referenced_count = suc t.referenced_count;
}
count_fate expired name t = record t {
  deleted = t.deleted ++ name ∷ [];
  deleted_count = suc t.deleted_count;
}
count_fate recent name t = record t { kept = t.kept ++ name ∷ []; kept_count = suc t.kept_count }

-- The loop: what it counts, and the candidates that are left. A removal that raises ends it with no
-- result.
unfoldable pub clean_candidates :
    (Text → Bool) → List Text → ℕ → Cleanup → List Candidate → Option Cleanup × List Candidate
clean_candidates unlink_fails tracked cutoff_time t [] = (some t, [])
clean_candidates unlink_fails tracked cutoff_time t (c ∷ candidates) =
    let fate = fate_of tracked cutoff_time c in
    let (r, left) =
      clean_candidates unlink_fails tracked cutoff_time (count_fate fate (name_of c.path) t)
        candidates in
    if is_expired fate
    then (if unlink_fails c.path then (none, c ∷ candidates) else (r, left))
    else (r, c ∷ left)

abbrev pub no_cleanup : Cleanup
no_cleanup = record {
  deleted = [];
  kept = [];
  deleted_count = 0;
  kept_count = 0;
  referenced_count = 0;
}

-- the time before which an archive is old
abbrev pub cutoff : ℕ → ℕ
cutoff now = now - archive_max_age_days * 24 * 60 * 60

-- `cleanup_old_archives`
unfoldable pub cleanup_old_archives :
    (Text → Bool)
    → Text
    → Text
    → Option Sessions
    → ℕ
    → List Candidate
    → Option Cleanup × List Candidate
cleanup_old_archives unlink_fails prefix sessions_dir sessions now candidates =
    clean_candidates unlink_fails (get_tracked_files prefix sessions_dir sessions) (cutoff now)
      no_cleanup candidates
