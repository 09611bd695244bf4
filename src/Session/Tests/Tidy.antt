-- ===== src/Session/Tests/Tidy.antt =====
-- The clean-up of orphans and of old archives in the directory of the tests.
use dinomem.Prelude.{ℕ, ◌≡◌, refl, true, false, Bool, Option, none, some, List, [], ◌∷◌, any}
use dinomem.Prelude.Text.{Text, codes, text_eq, starts_with, contains, strip, is_space}
use dinomem.Session.Clean.{
  session, entry, is_kept, clean_lines, cleanup_jsonl_content, is_valid_message,
  extract_message_content, sanitize_text, has_meaningful_content,
}
use dinomem.Session.Chain.{read_file}
use dinomem.Session.Archive.{
  has_slash, is_archived, name_of, stem_of, before_dot, unlink, write_file,
}
use dinomem.Session.Old.{
  Candidate, tracked_path, tracked_in, get_tracked_files, fate_of, count_fate, clean_candidates,
  cleanup_old_archives,
}
use dinomem.Session.Orphans.{
  orphan, orphan_path, is_marked, get_orphaned_files, archive_cleaned, archive_orphaned_file,
  visit_orphan, archive_orphans, cleanup_orphaned_files,
}
use dinomem.Session.Tests.{new_path, said, old_lines, new_lines, place, registry}

timestamp_named : has_slash place.timestamp ≡ false
timestamp_named = refl

new_is_plain : is_archived new_path ≡ false
unfolding is_archived name_of contains
new_is_plain = refl

new_is_tracked : any (text_eq new_path) (new_path ∷ []) ≡ true
unfolding text_eq
new_is_tracked = refl

abbrev prefix : Text
prefix = codes "agent:a:"

-- 30 days, 22 days and one day before the clean-up; the first is the transcript of a session
abbrev candidates : List Candidate
candidates =
    record { path = new_path; mtime = 408_000 }
    ∷ record { path = codes "/s/x.archived.reset.T.jsonl"; mtime = 1_099_200 }
    ∷ record { path = codes "/s/y.archived.reset.T.jsonl"; mtime = 2_913_600 }
    ∷ []

abbrev never : Text → Bool
never _ = false

one_is_old : cleanup_old_archives never prefix (codes "/s") (some registry) 3_000_000 candidates ≡ (
  some (record {
    deleted = codes "x.archived.reset.T.jsonl" ∷ [];
    kept = codes "new.jsonl" ∷ codes "y.archived.reset.T.jsonl" ∷ [];
    deleted_count = 1;
    kept_count = 2;
    referenced_count = 1;
  }),
  record { path = new_path; mtime = 408_000 }
      ∷ record { path = codes "/s/y.archived.reset.T.jsonl"; mtime = 2_913_600 }
      ∷ [],
)
unfolding cleanup_old_archives clean_candidates count_fate fate_of get_tracked_files tracked_in
    tracked_path text_eq starts_with name_of
one_is_old = refl

abbrev stray : Text
stray = codes "/s/stray.jsonl"

-- every transcript is three days old
abbrev three_days : Text → Option ℕ
three_days _ = some 259_200

-- The stray transcript goes to the archive, and the tracked one stays.
stray_is_archived :
    cleanup_orphaned_files place
      (new_path ∷ [])
      three_days
      (new_path ∷ stray ∷ [])
      ((new_path, new_lines) ∷ (stray, old_lines) ∷ [])
    ≡ (
      (1, orphan ∷ []),
      (new_path, new_lines)
          ∷ (codes "/s/stray.archived.orphan.T.jsonl", entry (session none) ∷ entry said ∷ [])
          ∷ [],
    )
unfolding cleanup_orphaned_files get_orphaned_files archive_orphans visit_orphan
    archive_orphaned_file archive_cleaned orphan_path read_file text_eq contains name_of
    cleanup_jsonl_content clean_lines is_kept unlink write_file stem_of before_dot is_marked
    is_valid_message extract_message_content strip sanitize_text is_space has_meaningful_content
stray_is_archived = refl
