-- ===== src/Cleanup/Passes.antt =====
-- The first and the third pass of `cleanup` in procedures/memory_cleanup.py over the memory files,
-- `prune_archive`, and the passes together. The files are the ones that the listing finds, with what `read_text` gives.
pub mod Lines
pub mod Dedup
pub mod Bootcheck
use dinomem.Prelude.{
  ℕ, suc, ◌+◌, ◌*◌, Bool, true, false, ◌&&◌, ◌||◌, not, Option, none, some, List, [], ◌∷◌, ◌++◌,
  ltb, leb, ◌==◌, length, filter, any, take, drop, map, if◌then◌else◌,
}
use dinomem.Prelude.Text.{
  Text, codes, text_eq, lstrip, strip, starts_with, strip_prefix, contains, split, join,
}
use dinomem.Dates.{stem}
use dinomem.Retention.Entry.{newline}
use dinomem.Retention.Run.{Directory}
use dinomem.Cleanup.Dedup.{Tools, semantic_dedup_items}
use dinomem.Cleanup.Expiring.{is_digit, expiry_pass}

-- `ALL_ITEM_TAGS`
abbrev pub all_item_tags : List Text
all_item_tags =
    codes "[factual]"
    ∷ codes "[pattern]"
    ∷ codes "[operational]"
    ∷ codes "[decision]"
    ∷ codes "[correction]"
    ∷ codes "[preference]"
    ∷ codes "[uncertain]"
    ∷ codes "[lesson]"
    ∷ codes "[prediction]"
    ∷ []

-- a tag and something behind it
unfoldable pub tagged : List Text → Text → Bool
tagged [] s = false
tagged (tag ∷ tags) s =
    elim (strip_prefix tag s) as (λ _. Bool) [ none ↦ false | some rest ↦ ltb 0 (length rest) ]
    || tagged tags s

unfoldable pub dash_tagged : Text → Bool
dash_tagged [] = false
dash_tagged (c ∷ s) = c == b'-' && tagged all_item_tags (lstrip s)

-- `item_pattern.match(line)`
unfoldable pub is_item : Text → Bool
is_item line = dash_tagged (lstrip line)

-- What `extract_all_items` collects of an item's line.
pub record Item : Type 0 where
  pub line_index : ℕ
  pub raw_line : Text
  pub item_text : Text

-- the items of one file, from the line `i` on
unfoldable pub items_of : ℕ → List Text → List Item
items_of i [] = []
items_of i (line ∷ lines) =
    let rest = items_of (suc i) lines in
    if is_item line
    then record { line_index = i; raw_line = line; item_text = strip line } ∷ rest
    else rest

-- `extract_all_items`
unfoldable pub extract_all_items : Directory → List Item
extract_all_items [] = []
extract_all_items ((name, content) ∷ files) =
    items_of 0 (split newline content) ++ extract_all_items files

-- a file's entry of `lines_to_remove`
unfoldable pub remove_indices : List Text → List Item → List ℕ
remove_indices deduped [] = []
remove_indices deduped (item ∷ items) =
    let rest = remove_indices deduped items in
    if any (text_eq item.item_text) deduped then rest else item.line_index ∷ rest

-- `[line for i, line in enumerate(lines) if i not in remove_indices]`, from the line `i` on, and the others
unfoldable pub kept_lines : List ℕ → ℕ → List Text → List Text
kept_lines indices i [] = []
kept_lines indices i (line ∷ lines) =
    let rest = kept_lines indices (suc i) lines in
    if any (λ k. k == i) indices then rest else line ∷ rest

unfoldable pub removed_lines : List ℕ → ℕ → List Text → List Text
removed_lines indices i [] = []
removed_lines indices i (line ∷ lines) =
    let rest = removed_lines indices (suc i) lines in
    if any (λ k. k == i) indices then line ∷ rest else rest

-- `open(..., "a").write(s)`
unfoldable pub append_file : Text → Text → Directory → Directory
append_file name s [] = (name, s) ∷ []
append_file name s ((n, c) ∷ files) =
    if text_eq n name then (n, c ++ s) ∷ files else (n, c) ∷ append_file name s files

-- The day and the time of the run, as the names and the headers of the archive write them, and the order
-- in which a set of line numbers is iterated, by what it does to the lines.
pub record Moment : Type 0 where
  pub today : ℕ
  pub today_str : Text
  pub today_display : Text
  pub set_order : List Text → List Text

abbrev pub archive_name : Text → Text → Text → Text
archive_name name kind today_str = stem name ++ (kind ++ (today_str ++ codes ".md"))

unfoldable pub dedup_note : Moment → Text → List Text → Text
dedup_note m name lines =
    (codes "# Semantic dedup removed from "
      ++ (name ++ (codes " on " ++ (m.today_display ++ newline ∷ []))))
    ++ (join (newline ∷ []) (m.set_order lines) ++ newline ∷ [])

-- The rewriting of one file in the first pass: how many lines it removes, the text, and the archive. A file
-- with nothing to remove has no entry of `lines_to_remove`.
unfoldable pub apply_removals : Moment → Text → Text → Directory → List ℕ → ℕ × (Text × Directory)
apply_removals m name content archive [] = (0, (content, archive))
apply_removals m name content archive (k ∷ indices) =
    let lines = split newline content in
    (
      suc (length indices),
      (
        join (newline ∷ []) (kept_lines (k ∷ indices) 0 lines),
        append_file (archive_name name (codes "_dedup_") m.today_str)
            (dedup_note m name (removed_lines (k ∷ indices) 0 lines)) archive,
      ),
    )

unfoldable pub dedup_file : Moment → List Text → Text → Text → Directory → ℕ × (Text × Directory)
dedup_file m deduped name content archive =
    apply_removals m name content archive
      (remove_indices deduped (items_of 0 (split newline content)))

unfoldable pub dedup_files :
    Moment → List Text → Directory → Directory → ℕ × (Directory × Directory)
dedup_files m deduped [] archive = (0, ([], archive))
dedup_files m deduped ((name, content) ∷ files) archive =
    let (n, (text, archive1)) = dedup_file m deduped name content archive in
    let (k, (rest, archive2)) = dedup_files m deduped files archive1 in
    (n + k, ((name, text) ∷ rest, archive2))

-- the first pass; no items remove nothing
unfoldable pub dedup_pass : Tools → Moment → Directory → Directory → ℕ × (Directory × Directory)
dedup_pass w m files archive =
    dedup_files m
      (semantic_dedup_items w (map (λ item. item.item_text) (extract_all_items files))).0 files
      archive

abbrev pub bootcheck_keywords : List Text
bootcheck_keywords =
    codes "bootcheck"
    ∷ codes "framework validation"
    ∷ codes "operational procedures"
    ∷ codes "workflow_market"
    ∷ codes "analysis_template"
    ∷ codes "AI successfully recalled"
    ∷ []

-- `bool(re.search(ALL_ITEM_TAGS, content))`
unfoldable pub has_real_content : Text → Bool
has_real_content content = any (λ tag. contains tag content) all_item_tags

-- whether the third pass removes a file
unfoldable pub is_bootcheck : Tools → Text → Bool
is_bootcheck w content =
    not (has_real_content content) && any (λ kw. contains kw (w.lower content)) bootcheck_keywords

unfoldable pub bootcheck_note : Moment → Text → Text → Text
bootcheck_note m name content =
    (codes "# Bootcheck removal from "
      ++ (name ++ (codes " on " ++ (m.today_display ++ codes "\n\n"))))
    ++ (content ++ newline ∷ [])

-- the third pass
unfoldable pub bootcheck_pass : Tools → Moment → Directory → Directory → ℕ × (Directory × Directory)
bootcheck_pass w m [] archive = (0, ([], archive))
bootcheck_pass w m ((name, content) ∷ files) archive =
    let gone = is_bootcheck w content in
    let noted =
      if gone
      then append_file (archive_name name (codes "_bootcheck_") m.today_str)
          (bootcheck_note m name content) archive
      else archive in
    let (n, (rest, archive2)) = bootcheck_pass w m files noted in
    if gone then (suc n, (rest, archive2)) else (n, ((name, content) ∷ rest, archive2))

abbrev pub archive_retention_days : ℕ
archive_retention_days = 180

-- `prune_archive`, from the times of the files; `fails` is the OSError of `stat` or `unlink`
unfoldable pub prune_archive : ℕ → (Text → ℕ) → (Text → Bool) → Directory → Directory
prune_archive now mtime fails archive =
    filter (λ f. fails f.0 || not (ltb (mtime f.0 + archive_retention_days * 86400) now)) archive

-- `BARE_DAILY_RE.match(name)`
unfoldable pub bare_daily : Text → Bool
unfolding is_digit
bare_daily (a ∷ b ∷ c ∷ d ∷ s ∷ e ∷ f ∷ t ∷ g ∷ h ∷ rest) =
    is_digit a
    && is_digit b
    && is_digit c
    && is_digit d
    && s == b'-'
    && is_digit e
    && is_digit f
    && t == b'-'
    && is_digit g
    && is_digit h
    && text_eq rest (codes ".md")
bare_daily _ = false

unfoldable pub is_swept : Text → Bool
is_swept name =
    not (text_eq name (codes "MEMORY.md"))
    && not (starts_with (codes "_") name)
    && not (bare_daily name)

-- `md_files`
unfoldable pub md_files : Directory → Directory
md_files files = filter (λ f. is_swept f.0) files

-- The passes and the pruning one after the other, with the swept files and the archive afterwards; the second
-- component tells whether the run gets to the index of the memory. `fails` and `mtime` belong to the archive.
unfoldable pub cleanup :
    Tools
    → Moment
    → ℕ
    → (Text → ℕ)
    → (Text → Bool)
    → Directory
    → Directory
    → (Directory × Directory) × Bool
cleanup w m now mtime fails files archive =
    let (n, (files1, archive1)) = dedup_pass w m (md_files files) archive in
    let (files2, ok) = expiry_pass m.today files1 in
    let (k, (files3, archive3)) = bootcheck_pass w m files2 archive1 in
    if ok
    then ((files3, prune_archive now mtime fails archive3), true)
    else ((files2, archive1), false)
