-- ===== src/Extract/Item.antt =====
-- One item of the memory as a file of its own: `_tiered_sections` and `_write_item_file` of
-- procedures/extract_memory.py, over the directory of the memory files. Texts that are absent in the source
-- are empty here, which it treats alike.
pub mod Written
use dinomem.Prelude.{
  ℕ, Bool, true, false, not, ◌&&◌, Option, none, some, List, [], ◌∷◌, ◌++◌, map, ltb, ◌==◌,
  if◌then◌else◌, length, take,
}
use dinomem.Prelude.Text.{Text, codes, text_eq, strip, contains, join}
use dinomem.Retention.Run.{Directory}
use dinomem.Retention.Run.Files.{find_file}
use dinomem.ConfigTool.Write.{put_file}
use dinomem.Extract.Tags.{
  Python, behind_run, clean_text, expires_of, ctx_of, confidence_of, slugify,
}

-- what is in front of the last space, if there is one
unfoldable pub before_last_space : Text → Option Text
before_last_space [] = none
before_last_space (c ∷ s) = elim (before_last_space s) [
  | none ↦ if c == b' ' then some [] else none
  | some t ↦ some (c ∷ t)
]

-- `s.rsplit(' ', 1)[0]`
unfoldable pub up_to_last_space : Text → Text
up_to_last_space s = elim (before_last_space s) [ none ↦ s | some t ↦ t ]

-- the abstract of `_tiered_sections`
unfoldable pub level_zero : Text → Text
level_zero clean =
    if ltb 400 (length (strip clean))
    then up_to_last_space (take 397 (strip clean)) ++ codes "..."
    else strip clean

abbrev if_any : Text → Text → List Text
if_any [] line = []
if_any (c ∷ s) line = line ∷ []

unfoldable pub topic_hint : List Text → Text
topic_hint topics = join (codes ", ") (map (behind_run (λ c. c == b'#')) (take 3 topics))

-- the overview of `_tiered_sections`
unfoldable pub level_one : Text → Text → List Text → Text
level_one l0 context_snippet topics = join (codes " | ") (
    l0
    ∷ (if_any context_snippet (codes "Context: " ++ strip context_snippet)
        ++ if_any (topic_hint topics) (codes "Topics: " ++ topic_hint topics)))

-- What goes with the items of a summary: the day, the topics, the context and the verdict.
pub record Stamp : Type 0 where
  pub date : Text
  pub topics : List Text
  pub context_snippet : Text
  pub seed_verdict : Text

abbrev tagged_line : Text → Text → List Text
tagged_line label value = if_any value (label ++ value)

-- `s.replace("\n", " ")`
abbrev in_one_line : Text → Text
in_one_line s = map (λ c. if c == 10 then b' ' else c) s

-- the lines in front of the item
unfoldable pub frontmatter : Python → Stamp → Text → Text → List Text
frontmatter py stamp item_type item =
    codes "---"
    ∷ (codes "type: " ++ item_type)
    ∷ (codes "date: " ++ stamp.date)
    ∷ (tagged_line (codes "expires: ") (expires_of item)
        ++ (tagged_line (codes "ctx: ") (ctx_of item)
            ++ (tagged_line (codes "confidence: ") (confidence_of py item)
                ++ (tagged_line (codes "topics: ") (join (codes " ") stamp.topics)
                    ++ (tagged_line (codes "verdict: ") stamp.seed_verdict
                        ++ (if_any stamp.context_snippet
                              (codes "session_ctx: " ++ in_one_line (take 80 stamp.context_snippet))
                            ++ (codes "---" ∷ [] ∷ [])))))))

abbrev overview_lines : Text → Text → List Text
overview_lines l0 l1 =
    if text_eq l1 [] then [] else if text_eq l1 l0 then [] else (codes "L1: " ++ l1) ∷ [] ∷ []

-- the text of an item's file
unfoldable pub item_file_text : Python → Stamp → Text → Text → Text
item_file_text py stamp item_type item =
    let l0 = level_zero (clean_text py item) in
    join (codes "\n") (
      frontmatter py stamp item_type item
      ++ ((codes "L0: " ++ l0)
          ∷ []
          ∷ (overview_lines l0 (level_one l0 stamp.context_snippet stamp.topics)
              ++ (item ∷ [] ∷ []))))

unfoldable pub item_file_name : Python → Text → Text → Text → Text
item_file_name py date item_type item =
    date
    ++ (codes "_"
        ++ (item_type ++ (codes "_" ++ (slugify py 40 (clean_text py item) ++ codes ".md"))))

-- whether the file is there and has the item's text in it
unfoldable pub is_stored : Text → Option Text → Bool
is_stored item none = false
is_stored item (some existing) = contains item existing

-- `_write_item_file`: whether the file was written, its name, and the directory
unfoldable pub write_item_file : Python → Stamp → Text → Text → Directory → Bool × Text × Directory
write_item_file py stamp item_type item dir =
    let name = item_file_name py stamp.date item_type item in
    if is_stored item (find_file name dir)
    then (false, name, dir)
    else (true, name, put_file name (item_file_text py stamp item_type item) dir)
