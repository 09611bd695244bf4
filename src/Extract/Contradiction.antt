-- ===== src/Extract/Contradiction.antt =====
-- New items against the memory: the loop of `_contradiction_check_items` in procedures/extract_memory.py. The
-- embeddings with the cosine and the threshold, the model's verdict (none when the call or the reply fails) and
-- the comparison of two confidences are parameters. `_drop_reason` is defined nowhere: the call after a line
-- is blanked raises a NameError, which nothing on the way to `main` catches.
pub mod Spared
use dinomem.Prelude.{
  ℕ, suc, Bool, true, false, ◌&&◌, ◌||◌, not, Option, none, some, List, [], ◌∷◌, ◌++◌, leb, ltb,
  ◌==◌, if◌then◌else◌, any, all, filter, length, take, map, ◌-◌, zero,
}
use dinomem.Prelude.Text.{
  Text, codes, text_eq, is_space, lstrip, strip, strip_prefix, starts_with, split, join,
}
use dinomem.Retention.Run.{Directory}
use dinomem.Retention.Run.Files.{find_file}
use dinomem.ConfigTool.Write.{put_file}
use dinomem.Extract.Archive.{is_blank_text}
use dinomem.Extract.Tags.{
  Python, and_then, behind_char, behind_run, behind_some, behind_meta_tag, erase, strip_meta_tags,
  digits, confidence_of,
}
use dinomem.Extract.Known.{Known, existing_items}

pub data Verdict : Type 0 where
  same update contradiction unrelated : Verdict
  merge : Text → Verdict

pub record Judge : Type 1 where
  pub Vector : Type 0
  pub embed : Text → Option Vector
  pub similar : Vector → Vector → Bool
  pub verdict : Text → List Text → Option Verdict
  pub exceeds : Text → Text → Bool
  pub python : Python
  pub upper : Text → Text

-- The items that are kept, or a NameError.
pub data Checked : Type 0 where
  kept : List Text → Checked
  raised : Checked

-- `path.unlink()`
unfoldable pub remove_file : Text → Directory → Directory
remove_file f [] = []
remove_file f ((g, c) ∷ dir) =
    let rest = remove_file f dir in if text_eq g f then dir else (g, c) ∷ rest

-- `lines[i] = new`
unfoldable pub replace_line : ℕ → Text → List Text → List Text
replace_line i new [] = []
replace_line zero new (l ∷ lines) = new ∷ lines
replace_line (suc i) new (l ∷ lines) = l ∷ replace_line i new lines

unfoldable pub line_at : ℕ → List Text → Option Text
line_at i [] = none
line_at zero (l ∷ lines) = some l
line_at (suc i) (l ∷ lines) = line_at i lines

abbrev is_tag_letter : ℕ → Bool
is_tag_letter c = leb b'a' c && leb c b'z' || c == b'_'

abbrev behind_dash : Text → Text
behind_dash [] = []
behind_dash (c ∷ s) = if c == b'-' then s else c ∷ s

-- what is behind `^(\s*-?\s*\[[a-z_]+\]\s*)`
unfoldable pub behind_lead : Text → Option Text
behind_lead s =
    and_then (behind_char b'[' (behind_run is_space (behind_dash (behind_run is_space s)))) λ a.
      and_then (behind_some is_tag_letter a)
        λ b. and_then (behind_char b']' b) λ c. some (behind_run is_space c)

-- `lead`
unfoldable pub lead_of : Text → Text
lead_of line = elim (behind_lead line) [
  | none ↦ []
  | some rest ↦ take (length line - length rest) line
]

-- The text is tags and spaces, a tag first.
unfoldable pub only_meta : Text → Bool
only_meta s = elim (behind_meta_tag s) [
  | none ↦ false
  | some _ ↦ is_blank_text (erase behind_meta_tag 0 s)
]

-- `trail`
unfoldable pub trail_of : Text → Text
trail_of [] = []
trail_of (c ∷ s) = if only_meta (c ∷ s) then c ∷ s else trail_of s

-- `target`: the first candidate whose file is there, with its lines
unfoldable pub merge_target : Directory → List Known → Option (Known × List Text)
merge_target dir [] = none
merge_target dir (k ∷ ks) = elim (find_file k.file dir) [
  | none ↦ merge_target dir ks
  | some content ↦ some (k, split 10 content)
]

abbrev pub put_lines : Text → List Text → Directory → Directory
put_lines file lines dir = put_file file (join (codes "\n") lines) dir

abbrev pub merge_into : Text → Directory → Option (Known × List Text) → Option Directory
merge_into merged dir none = none
merge_into merged dir (some (k, lines)) = elim (line_at k.line_idx lines) [
  | none ↦ none
  | some line ↦ some (
      put_lines k.file (replace_line k.line_idx (lead_of line ++ (merged ++ trail_of line)) lines)
        dir)
]

-- The merge of a new item into the memory; none where the item is kept.
unfoldable pub merge_item : Text → List Known → Directory → Option Directory
merge_item merged candidates dir =
    if is_blank_text merged
    then none
    else merge_into (strip merged) dir (merge_target dir candidates)

-- `\s*$` with MULTILINE
unfoldable pub ends_of_line : Text → Bool
ends_of_line [] = true
ends_of_line (c ∷ s) = c == 10 || is_space c && ends_of_line s

abbrev closed_line : Text → Text → Option Text
closed_line v rest = if ends_of_line rest then some v else none

abbrev number_line : Python → ℕ → Text → Option Text
number_line py d [] = some (d ∷ [])
number_line py d (c ∷ s) =
    if c == b'.'
    then and_then (behind_some py.is_digit s) (closed_line (d ∷ b'.' ∷ digits py.is_digit s))
    else closed_line (d ∷ []) (c ∷ s)

abbrev zero_or_one : Python → Text → Option Text
zero_or_one py [] = none
zero_or_one py (c ∷ s) = if c == b'0' || c == b'1' then number_line py c s else none

abbrev confidence_here : Python → Text → Option Text
confidence_here py s =
    and_then (strip_prefix (codes "confidence:") s) λ a. zero_or_one py (behind_run is_space a)

-- `^confidence:\s*([01](?:\.\d+)?)\s*$`, the first match; the flag is whether a line starts here
unfoldable pub file_confidence : Python → Bool → Text → Option Text
file_confidence py start [] = none
file_confidence py start (c ∷ s) =
    let rest = file_confidence py (c == 10) s in
    if start then elim (confidence_here py (c ∷ s)) [ some v ↦ some v | none ↦ rest ] else rest

-- Better-wins: both have a confidence and that of the file is higher.
unfoldable pub is_better : Judge → Text → Text → Bool
is_better j content new_item = elim (file_confidence j.python true content) [
  | none ↦ false
  | some existing ↦ elim (confidence_of j.python new_item) [
    | [] ↦ false
    | c ∷ incoming ↦ j.exceeds existing (c ∷ incoming)
  ]
]

-- `re.match(r'^[a-z_]+:\s', s)`
unfoldable pub is_field_line : Text → Bool
is_field_line s = elim (and_then (behind_some is_tag_letter s) (behind_char b':')) [
  | none ↦ false
  | some [] ↦ false
  | some (c ∷ r) ↦ is_space c
]

unfoldable pub is_content_line : Text → Bool
is_content_line line =
    not (is_blank_text line)
    && not (starts_with (codes "---") (strip line))
    && not (is_field_line (strip line))

-- `content_line_idxs`
unfoldable pub content_lines : ℕ → List Text → List ℕ
content_lines i [] = []
content_lines i (line ∷ lines) =
    let rest = content_lines (suc i) lines in if is_content_line line then i ∷ rest else rest

abbrev is_only : ℕ → List ℕ → Bool
is_only i [] = false
is_only i (k ∷ []) = k == i
is_only i (k ∷ l ∷ ks) = false

-- what a candidate's file becomes, and whether the NameError follows
unfoldable pub evict_from : Known → List Text → Directory → Bool × Directory
evict_from k lines dir =
    if is_only k.line_idx (content_lines 0 lines)
    then (false, remove_file k.file dir)
    else if ltb k.line_idx (length lines)
    then (true, put_lines k.file (replace_line k.line_idx [] lines) dir)
    else (false, dir)

-- one candidate of an update or a contradiction
unfoldable pub evict : Judge → Text → Known → Directory → Bool × Directory
evict j new_item k dir = if k.is_peer then (false, dir) else elim (find_file k.file dir) [
  | none ↦ (false, dir)
  | some content ↦
      if is_better j content new_item then (false, dir) else evict_from k (split 10 content) dir
]

abbrev pub go_on : Bool × Directory → (Directory → Bool × Directory) → Bool × Directory
go_on (true, dir) f = (true, dir)
go_on (false, dir) f = f dir

unfoldable pub evict_all : Judge → Text → List Known → Directory → Bool × Directory
evict_all j new_item [] dir = (false, dir)
evict_all j new_item (k ∷ ks) dir = go_on (evict j new_item k dir) (evict_all j new_item ks)

-- What becomes of a new item: kept, dropped, or a NameError.
pub data Fate : Type 0 where
  keep drop crash : Fate

abbrev pub crash_or_keep : Bool × Directory → Fate × Directory
crash_or_keep (b, dir) = (if b then crash else keep, dir)

abbrev pub dropped_if_merged : Directory → Option Directory → Fate × Directory
dropped_if_merged dir none = (keep, dir)
dropped_if_merged dir (some merged) = (drop, merged)

abbrev pub by_verdict : Judge → Text → List Known → Directory → Option Verdict → Fate × Directory
by_verdict j new_item candidates dir none = (keep, dir)
by_verdict j new_item candidates dir (some same) = (drop, dir)
by_verdict j new_item candidates dir (some (merge merged)) =
    dropped_if_merged dir (merge_item merged candidates dir)
by_verdict j new_item candidates dir (some update) =
    crash_or_keep (evict_all j new_item candidates dir)
by_verdict j new_item candidates dir (some contradiction) =
    crash_or_keep (evict_all j new_item candidates dir)
by_verdict j new_item candidates dir (some unrelated) = (keep, dir)

-- whether an existing item is as near as the threshold
unfoldable pub is_near : (j : Judge) → j.Vector → Known → Bool
is_near j new_vec k = elim (j.embed (strip_meta_tags k.item_text)) [
  | none ↦ false
  | some v ↦ j.similar new_vec v
]

unfoldable pub candidates_of : Judge → List Known → Text → List Known
candidates_of j existing new_item = elim (j.embed (strip_meta_tags new_item)) [
  | none ↦ []
  | some v ↦ filter (is_near j v) existing
]

abbrev pub judge_candidates : Judge → Text → List Known → Directory → Fate × Directory
judge_candidates j new_item [] dir = (keep, dir)
judge_candidates j new_item (k ∷ ks) dir =
    if any (λ c. c.is_peer) (k ∷ ks)
    then (drop, dir)
    else by_verdict j new_item (k ∷ ks) dir
        (j.verdict (strip_meta_tags new_item) (map (λ c. strip_meta_tags c.item_text) (k ∷ ks)))

-- one round of the loop
unfoldable pub check_item : Judge → List Known → Text → Directory → Fate × Directory
check_item j existing new_item dir =
    judge_candidates j new_item (candidates_of j existing new_item) dir

abbrev pub and_keep : Text → Checked × Directory → Checked × Directory
and_keep item (kept items, dir) = (kept (item ∷ items), dir)
and_keep item (raised, dir) = (raised, dir)

abbrev pub by_fate :
    Text → (Directory → Checked × Directory) → Fate × Directory → Checked × Directory
by_fate item rest (keep, dir) = and_keep item (rest dir)
by_fate item rest (drop, dir) = rest dir
by_fate item rest (crash, dir) = (raised, dir)

unfoldable pub check_items : Judge → List Known → List Text → Directory → Checked × Directory
check_items j existing [] dir = (kept [], dir)
check_items j existing (item ∷ items) dir =
    by_fate item (check_items j existing items) (check_item j existing item dir)

-- `_contradiction_check_items`
unfoldable pub contradiction_check_items :
    Judge → Directory → List Text → Directory → Checked × Directory
contradiction_check_items j peers new_items dir =
    check_items j (existing_items j.upper dir peers) new_items dir
