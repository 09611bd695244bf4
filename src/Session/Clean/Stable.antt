-- ===== src/Session/Clean/Stable.antt =====
-- `cleanup_jsonl_content` of a cleaned transcript, and its header.
use dinomem.Prelude.{
  ◌≡◌, refl, ap, inl, inr, true, false, Option, some, List, [], ◌∷◌, Bool-cases, All,
}
use dinomem.Prelude.Text.{Text}
use dinomem.Session.Clean.{
  Line, blank, malformed, broken, entry, Entry, session, compaction, message, event, Stats,
  no_stats, is_kept, count_entry, clean_lines, cleanup_jsonl_content, written, get_session_header,
}

-- All entries of the cleaned transcript are kept when it is cleaned again.
clean_lines-kept :
    (s : Stats) (lines : List Line) → All (λ e. is_kept e ≡ true) (clean_lines s lines).0
unfolding clean_lines
clean_lines-kept s [] = tt
clean_lines-kept s (blank ∷ lines) = clean_lines-kept s lines
clean_lines-kept s (malformed ∷ lines) = clean_lines-kept (count_entry false s) lines
clean_lines-kept s (broken ∷ lines) = tt
clean_lines-kept s (entry e ∷ lines) = elim (Bool-cases (is_kept e)) [
  | inl k ↦ rw k (k, clean_lines-kept (count_entry true s) lines)
  | inr n ↦ rw n (clean_lines-kept (count_entry false s) lines)
]

clean_written :
    (s : Stats) (es : List Entry)
    → All (λ e. is_kept e ≡ true) es
    → (clean_lines s (written es)).0 ≡ es
unfolding clean_lines
clean_written s [] h = refl
clean_written s (e ∷ es) h = rw h.0 (ap (λ r. e ∷ r) (clean_written (count_entry true s) es h.1))

-- Cleaning a cleaned transcript again keeps every entry of it.
pub cleanup_jsonl_content_twice :
    (lines : List Line)
    → (cleanup_jsonl_content (written (cleanup_jsonl_content lines).0)).0
      ≡ (cleanup_jsonl_content lines).0
unfolding cleanup_jsonl_content
cleanup_jsonl_content_twice lines =
    clean_written no_stats (clean_lines no_stats lines).0 (clean_lines-kept no_stats lines)

header_lem :
    (s : Stats) (lines : List Line) (parent : Option Text)
    → get_session_header lines ≡ some parent
    → get_session_header (written (clean_lines s lines).0) ≡ some parent
unfolding clean_lines get_session_header is_kept
header_lem s [] parent h = absurd (cc h)
header_lem s (blank ∷ lines) parent h = header_lem s lines parent h
header_lem s (malformed ∷ lines) parent h = absurd (cc h)
header_lem s (broken ∷ lines) parent h = absurd (cc h)
header_lem s (entry (session p) ∷ lines) parent h = h
header_lem s (entry compaction ∷ lines) parent h = absurd (cc h)
header_lem s (entry (message role content) ∷ lines) parent h = absurd (cc h)
header_lem s (entry event ∷ lines) parent h = absurd (cc h)

-- A transcript with a header has the same parentSession after it is cleaned and written, so the chain
-- of compactions can be followed through the archive.
pub header-cleanup_jsonl_content :
    (lines : List Line) (parent : Option Text)
    → get_session_header lines ≡ some parent
    → get_session_header (written (cleanup_jsonl_content lines).0) ≡ some parent
unfolding cleanup_jsonl_content
header-cleanup_jsonl_content = header_lem no_stats
