-- ===== src/Review/Run.antt =====
-- `review` of procedures/memory_review.py: the batch of the day, the pre-filter, and the loop.
pub mod Batched
use dinomem.Prelude.{
  ℕ, suc, ◌+◌, Bool, true, false, ◌&&◌, ◌||◌, not, Option, none, some, List, [], ◌∷◌, ◌++◌, map,
  leb, ltb, if◌then◌else◌, length, take, filter,
}
use dinomem.Prelude.Text.{Text, codes, text_eq, starts_with}
use dinomem.Retention.Run.{Directory}
use dinomem.Retention.Run.Files.{find_file}
use dinomem.Review.Bucket.{Tracker}
use dinomem.Review.Batch.{Cursor, next_batch}
use dinomem.Review.Prefilter.{Source, Embedder, prefilter_batch}
use dinomem.Review.File.{Reviewer, Report, review_file}

-- `f.name != "MEMORY.md" and not f.name.startswith("_")`
unfoldable pub is_reviewable : Text → Bool
is_reviewable name = not (text_eq name (codes "MEMORY.md")) && not (starts_with (codes "_") name)

abbrev pub names : Directory → List Text
names [] = []
names ((n, c) ∷ files) = n ∷ names files

-- a file's new text, or its removal
unfoldable pub replace_file : Text → Option Text → Directory → Directory
replace_file name after [] = []
replace_file name after ((n, c) ∷ files) =
    let rest = replace_file name after files in
    if text_eq n name
    then elim after [ none ↦ files | some content ↦ (n, content) ∷ files ]
    else (n, c) ∷ rest

-- the loop over the ordered files; each of them is in the directory
unfoldable pub review_files : Reviewer → Report → Directory → List Text → Report × Directory
review_files r rep dir [] = (rep, dir)
review_files r rep dir (name ∷ rest) =
    let skip = review_files r rep dir rest in
    elim (find_file name dir) [
      | none ↦ skip
      | some content ↦
          let (rep', after) = review_file r name content rep in
          review_files r rep' (replace_file name after dir) rest
    ]

-- `priority_files == md_files`
unfoldable pub same_names : List Text → List Text → Bool
same_names [] [] = true
same_names (a ∷ xs) (b ∷ ys) = text_eq a b && same_names xs ys
same_names _ _ = false

abbrev pub is_empty : List Text → Bool
is_empty [] = true
is_empty (_ ∷ _) = false

unfoldable pub tei_active : List Text → List Text → List Text → Bool
tei_active md_files priority isolated = not (same_names priority md_files && is_empty isolated)

-- The files in the order of the loop; `cap` is DINOMEM_REVIEW_NOTEI_CAP.
unfoldable pub ordered_files : ℕ → List Text → List Text → List Text → List Text
ordered_files cap md_files priority isolated =
    if tei_active md_files priority isolated
    then priority ++ isolated
    else (if ltb cap (length priority) then take cap priority else priority) ++ isolated

unfoldable pub source_of : Directory → Text → Source
source_of dir name = record { path = name; text = find_file name dir }

abbrev pub new_report : Tracker → Report
new_report tracker = record {
  tracker = tracker;
  files_reviewed = 0;
  files_frozen = 0;
  files_redundant = 0;
  files_failed = 0;
  all_changes = [];
}

pub record Ended : Type 0 where
  pub report : Report
  pub directory : Directory
  pub cursor : Cursor

-- `review`
unfoldable pub review :
    {V : Type 0} → Embedder V → Reviewer → ℕ → Directory → Tracker → Cursor → Ended
review e r cap dir tracker cursor =
    let all_md_files = filter is_reviewable (names dir) in
    let (md_files, saved) = next_batch all_md_files cursor in
    let (priority, isolated) = prefilter_batch e (map (source_of dir) md_files) in
    let (rep, after) =
      review_files r (new_report tracker) dir (ordered_files cap md_files priority isolated) in
    record { report = rep; directory = after; cursor = saved }
