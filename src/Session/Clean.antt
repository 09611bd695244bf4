-- ===== src/Session/Clean.antt =====
-- Messages and the cleaning of a transcript in procedures/session_reset.py. A line of a transcript is
-- taken after `json.loads`: what the script reads of the value is an entry.
pub mod Stable
use dinomem.Prelude.{
  ℕ, suc, ◌+◌, Bool, true, false, ◌&&◌, ◌||◌, not, Option, none, some, List, [], ◌∷◌, ◌++◌, leb,
  if◌then◌else◌, length, any, filter,
}
use dinomem.Prelude.Text.{Text, codes, text_eq, strip}

-- One item of a message's content list: a text, or a dict of another type.
pub data Item : Type 0 where
  text : Text → Item
  media : Item

pub data Content : Type 0 where
  items : List Item → Content
  plain : Text → Content
  neither : Content

-- The value of a line, by its type: the header with its parentSession, a compaction summary, a message
-- with its role and content, or any other type.
pub data Entry : Type 0 where
  session : Option Text → Entry
  compaction : Entry
  message : Text → Content → Entry
  event : Entry

-- A blank line, one that is no JSON, a JSON value on which `.get` raises, or an entry.
pub data Line : Type 0 where
  blank malformed broken : Line
  entry : Entry → Line

abbrev pub min_message_length : ℕ
min_message_length = 15

-- `sanitize_text`: the surrogates have no UTF-8
unfoldable pub sanitize_text : Text → Text
sanitize_text s = filter (λ c. not (leb 0xd800 c && leb c 0xdfff)) s

-- `has_meaningful_content`
unfoldable pub has_meaningful_content : Text → Bool
has_meaningful_content s =
    any
      (λ c.
        leb b'a' c && leb c b'z'
        || leb b'A' c && leb c b'Z'
        || leb b'0' c && leb c b'9'
        || leb 0x4e00 c && leb c 0x9fff)
      s

unfoldable pub joined_items : List Item → Text
joined_items [] = []
joined_items (text t ∷ l) = t ++ joined_items l
joined_items (media ∷ l) = joined_items l

-- `extract_message_content`
unfoldable pub extract_message_content : Content → Text
extract_message_content (items l) = strip (sanitize_text (joined_items l))
extract_message_content (plain t) = strip (sanitize_text t)
extract_message_content neither = strip (sanitize_text [])

pub data Reason : Type 0 where
  compaction_summary not_a_message no_meaningful_content is_valid : Reason
  bad_role : Text → Reason
  too_short : ℕ → Reason

-- `is_valid_message`
unfoldable pub is_valid_message : Entry → Bool × Reason
is_valid_message compaction = (true, compaction_summary)
is_valid_message (session parent) = (false, not_a_message)
is_valid_message event = (false, not_a_message)
is_valid_message (message role content) =
    let t = extract_message_content content in
    if not (text_eq role (codes "user") || text_eq role (codes "assistant"))
    then (false, bad_role role)
    else if leb (length t) min_message_length
    then (false, too_short (length t))
    else if has_meaningful_content t
    then (true, is_valid)
    else (false, no_meaningful_content)

pub record Stats : Type 0 where
  pub total : ℕ
  pub kept : ℕ
  pub removed : ℕ

abbrev pub no_stats : Stats
no_stats = record { total = 0; kept = 0; removed = 0 }

-- the header is kept whatever it holds
unfoldable pub is_kept : Entry → Bool
is_kept (session parent) = true
is_kept e = (is_valid_message e).0

unfoldable pub count_entry : Bool → Stats → Stats
count_entry kept s =
    if kept
    then record s { total = suc s.total; kept = suc s.kept }
    else record s { total = suc s.total; removed = suc s.removed }

-- The loop of `cleanup_jsonl_content`: the entries that are written again, and the counts. A value on
-- which `.get` raises ends the loop, in the handler of the whole reading.
unfoldable pub clean_lines : Stats → List Line → List Entry × Stats
clean_lines s [] = ([], s)
clean_lines s (blank ∷ lines) = clean_lines s lines
clean_lines s (malformed ∷ lines) = clean_lines (count_entry false s) lines
clean_lines s (broken ∷ lines) = ([], record s { total = suc s.total })
clean_lines s (entry e ∷ lines) =
    let (rest, u) = clean_lines (count_entry (is_kept e) s) lines in
    (if is_kept e then e ∷ rest else rest, u)

-- `cleanup_jsonl_content` of a file that can be opened
unfoldable pub cleanup_jsonl_content : List Line → List Entry × Stats
cleanup_jsonl_content lines = clean_lines no_stats lines

-- what `write_cleaned_jsonl` puts into a file
abbrev pub written : List Entry → List Line
written [] = []
written (e ∷ es) = entry e ∷ written es

-- `get_session_header`, by the header's parentSession
unfoldable pub get_session_header : List Line → Option (Option Text)
get_session_header [] = none
get_session_header (blank ∷ lines) = get_session_header lines
get_session_header (entry (session parent) ∷ lines) = some parent
get_session_header (_ ∷ lines) = none
