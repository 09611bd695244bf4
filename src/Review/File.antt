-- ===== src/Review/File.antt =====
-- One round of the loop of `review` in procedures/memory_review.py: what happens to one file.
pub mod Spared
pub mod Graduate
use dinomem.Prelude.{
  ℕ, suc, ◌+◌, Bool, true, false, ◌&&◌, not, Option, none, some, List, [], ◌∷◌, ◌++◌, leb, ltb,
  if◌then◌else◌, length,
}
use dinomem.Prelude.Text.{Text, codes, text_eq, strip}
use dinomem.Prelude.Int.{ℤ}
use dinomem.Dates.{get_file_age}
use dinomem.Retention.Entry.{frozen_marker, is_frozen_text}
use dinomem.Review.Verdicts.{all_entries_valid}
use dinomem.Review.Bucket.{
  Tracker, applicable_bucket, terminal_bucket, is_reviewed, last_reviewed, record_review,
  forget_review,
}

abbrev pub max_review_content_chars : ℕ
max_review_content_chars = 120000

-- What the round meets outside: the day, the answer of the language model to the prompt for a file
-- (`none` when the call fails), and which removals and writes raise.
pub record Reviewer : Type 0 where
  pub today : ℕ
  pub answer : Text → Text → Option Text
  pub unlink_fails : Text → Bool
  pub write_fails : Text → Bool

pub data Change : Type 0 where
  failed redundant redundant_error frozen reviewed write_error : Change

pub record Report : Type 0 where
  pub tracker : Tracker
  pub files_reviewed : ℕ
  pub files_frozen : ℕ
  pub files_redundant : ℕ
  pub files_failed : ℕ
  pub all_changes : List (Change × Text)

-- `review_file_with_llm`: blank and oversized files are not sent
unfoldable pub review_file_with_llm : Reviewer → Text → Text → Option Text
review_file_with_llm r name content = elim (strip content) [
  | [] ↦ none
  | _ ∷ _ ↦ if ltb max_review_content_chars (length content) then none else r.answer name content
]

abbrev pub add_change : Change → Text → Report → Report
add_change c name rep = record rep { all_changes = rep.all_changes ++ (c, name) ∷ [] }

-- the answer ALL_REDUNDANT; the tracker forgets the file also where the removal raised
unfoldable pub drop_file : Reviewer → Text → Text → Report → Report × Option Text
drop_file r name content rep =
    let forgotten = record rep { tracker = forget_review name rep.tracker } in
    if r.unlink_fails name then (add_change redundant_error name forgotten, some content) else (
      add_change redundant name (record forgotten { files_redundant = suc rep.files_redundant }),
      none,
    )

unfoldable pub new_body : Bool → Text → Text
new_body graduate output =
    if graduate then frozen_marker ++ (10 ∷ (strip output ++ 10 ∷ [])) else strip output ++ 10 ∷ []

-- The write, and what is recorded after it. `_drop_reason` is not defined in this file: its call raises
-- a NameError, which the handler reports as a failed write, after the counters and the tracker.
unfoldable pub write_review :
    Reviewer → Text → Text → Text → ℕ → Bool → Report → Report × Option Text
write_review r name content output bucket graduate rep =
    if r.write_fails name
    then (add_change write_error name rep, some content)
    else (let kept = record rep {
      tracker = record_review name bucket rep.tracker;
      files_reviewed = suc rep.files_reviewed;
    } in
        (
          (if graduate
              then add_change write_error name (record kept { files_frozen = suc rep.files_frozen })
              else add_change reviewed name kept),
          some (new_body graduate output),
        ))

-- from the call of the language model on
unfoldable pub judge_file : Reviewer → Text → Text → ℕ → Report → Option Text → Report × Option Text
judge_file r name content bucket rep none =
    (add_change failed name (record rep { files_failed = suc rep.files_failed }), some content)
judge_file r name content bucket rep (some output) =
    if text_eq (strip output) (codes "ALL_REDUNDANT")
    then drop_file r name content rep
    else write_review r name content output bucket
        (leb terminal_bucket bucket && all_entries_valid output) rep

unfoldable pub review_bucket : Reviewer → Text → Text → Report → Option ℕ → Report × Option Text
review_bucket r name content rep none = (rep, some content)
review_bucket r name content rep (some bucket) =
    if is_reviewed name bucket rep.tracker
    then (rep, some content)
    else judge_file r name content bucket rep (review_file_with_llm r name content)

unfoldable pub review_aged : Reviewer → Text → Text → Report → Option ℤ → Report × Option Text
review_aged r name content rep none = (rep, some content)
review_aged r name content rep (some age) =
    if is_frozen_text content
    then (rep, some content)
    else review_bucket r name content rep (applicable_bucket age)

-- the body of the loop, for a file that can be read
unfoldable pub review_file : Reviewer → Text → Text → Report → Report × Option Text
review_file r name content rep = review_aged r name content rep (get_file_age r.today name)
