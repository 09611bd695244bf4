-- ===== src/Session/Tests.antt =====
-- Resets of small session directories.
mod Tidy
use dinomem.Prelude.{
  ℕ, any, ◌+◌, ◌≤◌, ◌≡◌, ◌↔◌, ◌⊎◌, refl, ap, Bool, true, false, not, Option, none, some, List, [],
  ◌∷◌, map, filter, length, min, arith,
}
use dinomem.Prelude.Text.{starts_with, Text, codes, text_eq, contains, strip_prefix}
use dinomem.Prelude.Int.{pos}
use dinomem.Session.Clean.{
  Entry, Line, session, message, compaction, event, entry, plain, blank, malformed, is_kept,
  clean_lines, cleanup_jsonl_content, written, get_session_header,
}
use dinomem.Session.Clean.Stable.{cleanup_jsonl_content_twice, header-cleanup_jsonl_content}
use dinomem.Session.Chain.{
  Files, read_file, is_seen, truthy, parent_of, get_compaction_depth, get_lineage_compaction_count,
}
use dinomem.Session.Chain.Depth.{get_compaction_depth_total}
use dinomem.Session.Chain.Lineage.{lineage_covers_depth}
use dinomem.Session.Filter.{
  SessionData, Sessions, should_reset, is_reset, skipped_of, filter_sessions_to_reset,
}
use dinomem.Session.Filter.Decision.{
  should_reset_iff, filter_sessions_to_reset_mode, filter_sessions_to_reset_lem,
}
use dinomem.Session.Archive.{
  Place, archive_path, is_archived, unlink, write_file, archive_file, next_parent, chain_loop,
  archive_predecessor_chain, name_of, stem_of, before_dot,
}
use dinomem.Session.Archive.Measure.{archive_predecessor_chain_total}
use dinomem.Session.Flush.{Extraction, finished, IsFlushed, force_flush_archive}
use dinomem.Session.Reset.{
  Store, nothing, reset, archive_session, session_path, drop_mapping, delete_key, archived_name,
  reset_session,
}
use dinomem.Session.Reset.Mapping.{
  found_in, archive_session-others, reset_session-others, force_reset-IsFlushed,
  reset_unarchived_drops,
}

abbrev pub old_path : Text
old_path = codes "/s/old.jsonl"

abbrev pub new_path : Text
new_path = codes "/s/new.jsonl"

abbrev pub said : Entry
said = message (codes "user") (plain (codes "please keep this fact"))

-- a header, a message, a line that is no JSON and another event
abbrev pub old_lines : List Line
old_lines = entry (session none) ∷ entry said ∷ malformed ∷ entry event ∷ []

abbrev pub new_lines : List Line
new_lines = entry (session (some old_path)) ∷ entry said ∷ blank ∷ entry compaction ∷ []

abbrev pub transcripts : Files
transcripts = (new_path, new_lines) ∷ (old_path, old_lines) ∷ []

abbrev pub place : Place
place = record { dir = codes "/s"; timestamp = codes "T"; write_fails = λ _. false }

abbrev full_disk : Place
full_disk = record { dir = codes "/s"; timestamp = codes "T"; write_fails = λ _. true }

abbrev pub recent : SessionData
recent = record {
  elapsed = some (pos 60_000_000);
  session_id = some (codes "new");
  session_file = some new_path;
  compaction_count = some 6;
}

abbrev pub older : SessionData
older = record {
  elapsed = some (pos 900_000_000_000);
  session_id = some (codes "old");
  session_file = none;
  compaction_count = none;
}

abbrev pub registry : Sessions
registry = (codes "agent:a:new", recent) ∷ (codes "agent:a:old", older) ∷ []

abbrev store : Store
store = record { files = transcripts; sessions = some registry }

-- The log names the archive, although the exit code is not 0.
abbrev extraction : Text → Extraction
extraction name = record { has_script = true; outcome = finished 1; processed = some (name ∷ []) }

archive_is_new : text_eq (archive_path place new_path) old_path ≡ false
unfolding text_eq archive_path name_of stem_of before_dot
archive_is_new = refl

one_generation : get_compaction_depth transcripts new_path ≡ some 1
unfolding get_compaction_depth read_file text_eq parent_of truthy is_seen get_session_header
one_generation = refl

new_is_archived : (reset_session place true extraction (codes "agent:a:new") recent store).0 ≡ reset
unfolding reset_session session_path archive_predecessor_chain chain_loop next_parent read_file
    archive_session archive_file text_eq parent_of truthy get_session_header is_seen is_archived
    contains name_of cleanup_jsonl_content clean_lines is_kept unlink write_file archive_path
    stem_of before_dot
new_is_archived = refl

registry_is_shorter :
    (reset_session place true extraction (codes "agent:a:new") recent store).1.sessions
    ≡ some ((codes "agent:a:old", older) ∷ [])
unfolding reset_session session_path archive_predecessor_chain chain_loop next_parent read_file
    archive_session archive_file text_eq drop_mapping delete_key parent_of truthy get_session_header
    is_seen is_archived contains name_of cleanup_jsonl_content clean_lines is_kept unlink write_file
    archive_path stem_of before_dot force_flush_archive starts_with strip_prefix
registry_is_shorter = refl

nothing_is_archived :
    (reset_session full_disk true extraction (codes "agent:a:new") recent store).0 ≡ nothing
unfolding reset_session session_path archive_predecessor_chain chain_loop next_parent read_file
    archive_session archive_file text_eq parent_of truthy get_session_header is_seen is_archived
    contains name_of cleanup_jsonl_content clean_lines is_kept
nothing_is_archived = refl

force_reset-IsFlushed_example :
    IsFlushed
      (archived_name place (session_path (codes "/s") recent))
      (extraction (archived_name place (session_path (codes "/s") recent)))
force_reset-IsFlushed_example =
    force_reset-IsFlushed place true extraction (codes "agent:a:new") recent store refl
      new_is_archived
      (λ e. absurd (omega (arith, ap count_sessions e, ap count_sessions registry_is_shorter)))
  where
    count_sessions : Option Sessions → ℕ
    count_sessions none = 0
    count_sessions (some s) = length s

archive_predecessor_chain_total_example :
    (r : ℕ × Files) × (archive_predecessor_chain place transcripts new_path ≡ some r)
archive_predecessor_chain_total_example =
    archive_predecessor_chain_total place (unfold name_of in refl) transcripts new_path

should_reset_iff_example :
    (should_reset false false true 6 ≡ true)
    ↔ ((5 ≤ 6) ⊎ (((false ≡ true) ⊎ (2 ≤ 6)) × (true ≡ false)))
should_reset_iff_example = should_reset_iff false false true 6
