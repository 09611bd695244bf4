-- ===== src/Review/File/Spared.antt =====
-- Which files a review leaves alone, and how the tracker moves.
use dinomem.Prelude.{
  ℕ, ◌≤◌, ◌<◌, ◌≡◌, inl, inr, Bool, true, false, ◌&&◌, Option, none, some, [], leb, length, arith,
  Option-cases,
}
use dinomem.Prelude.Text.{Text, strip, text_eq_refl}
use dinomem.Prelude.Int.{ℤ}
use dinomem.Dates.{get_file_age}
use dinomem.Retention.Entry.{is_frozen_text}
use dinomem.Review.Verdicts.{all_entries_valid}
use dinomem.Review.Bucket.{
  terminal_bucket, Tracker, applicable_bucket, stage, is_reviewed, last_reviewed,
  last_reviewed-record_review,
}
use dinomem.Review.File.{
  Reviewer, Report, max_review_content_chars, review_file_with_llm, drop_file, write_review,
  judge_file, review_bucket, review_aged, review_file,
}

-- Files of a kind that a round passes over.
pub data IsSpared (r : Reviewer) (name content : Text) (tracker : Tracker) : Type 0 where
  undated : get_file_age r.today name ≡ none → IsSpared r name content tracker
  frozen : is_frozen_text content ≡ true → IsSpared r name content tracker
  young :
      (age : ℤ)
      → get_file_age r.today name ≡ some age
      → applicable_bucket age ≡ none
      → IsSpared r name content tracker
  reviewed :
      (age : ℤ) (b : ℕ)
      → get_file_age r.today name ≡ some age
      → applicable_bucket age ≡ some b
      → is_reviewed name b tracker ≡ true
      → IsSpared r name content tracker
  blank : strip content ≡ [] → IsSpared r name content tracker
  oversized : max_review_content_chars < length content → IsSpared r name content tracker
  unanswered : r.answer name content ≡ none → IsSpared r name content tracker

-- a later bucket is a later stage
stage_rises :
    (age : ℤ) (b : ℕ) (last : Option ℕ)
    → applicable_bucket age ≡ some b
    → (elim last [ none ↦ false | some l ↦ leb b l ]) ≡ false
    → (stage last < stage (some b)) × (stage (some b) ≤ 5)
unfolding applicable_bucket
stage_rises age b none e h = ground arith
stage_rises age b (some l) e h = ground arith

module _ (r : Reviewer) (name content : Text) (rep : Report) where
  unsent :
      review_file_with_llm r name content ≡ none
      → ((review_file r name content rep).1 ≡ some content)
        × ((review_file r name content rep).0.tracker ≡ rep.tracker)
  unfolding review_file review_aged review_bucket judge_file
  unsent h = ground arith

  -- A file with no date in its name, frozen, younger than the first bucket, reviewed at its bucket or
  -- higher, blank, oversized, or without an answer keeps its text and its place in the tracker.
  pub review_file-spares :
      IsSpared r name content rep.tracker
      → ((review_file r name content rep).1 ≡ some content)
        × ((review_file r name content rep).0.tracker ≡ rep.tracker)
  unfolding review_file review_aged review_bucket
  review_file-spares (IsSpared.undated e) = ground arith
  review_file-spares (IsSpared.frozen e) = ground arith
  review_file-spares (IsSpared.young age e b) = ground arith
  review_file-spares (IsSpared.reviewed age b e f g) = ground arith
  review_file-spares (IsSpared.blank e) = unsent (unfold review_file_with_llm in ground arith)
  review_file-spares (IsSpared.oversized h) = unsent (unfold review_file_with_llm in ground arith)
  review_file-spares (IsSpared.unanswered e) = unsent (unfold review_file_with_llm in ground arith)

  write_stage :
      (output : Text) (bucket : ℕ) (graduate : Bool)
      → is_reviewed name bucket rep.tracker ≡ false
      → let rep' = (write_review r name content output bucket graduate rep).0 in
        rep.files_reviewed < rep'.files_reviewed → last_reviewed name rep'.tracker ≡ some bucket
  unfolding write_review
  write_stage output bucket graduate h w =
      ground (arith, last_reviewed-record_review name name bucket rep.tracker, text_eq_refl name)

  -- what a counted review has met and done
  counted :
      (age : ℤ)
      → get_file_age r.today name ≡ some age
      → (b : ℕ) → applicable_bucket age ≡ some b
      → rep.files_reviewed < (review_file r name content rep).0.files_reviewed
      → (is_reviewed name b rep.tracker ≡ false)
        × (last_reviewed name (review_file r name content rep).0.tracker ≡ some b)
  unfolding review_file review_aged review_bucket judge_file drop_file
  counted age e b f w = elim (Option-cases (review_file_with_llm r name content)) [
    | inl n ↦ absurd (ground arith)
    | inr (output, o) ↦
        ground (arith, o, write_stage output b (leb terminal_bucket b && all_entries_valid output))
  ]

  -- A round that counts a review records the bucket that the age has reached, and that bucket is past
  -- the one recorded before: the number of buckets passed rises, and it is at most five.
  pub review_file-progress :
      (age : ℤ) (b : ℕ)
      → get_file_age r.today name ≡ some age
      → applicable_bucket age ≡ some b
      → let rep' = (review_file r name content rep).0 in
        rep.files_reviewed < rep'.files_reviewed
        → (last_reviewed name rep'.tracker ≡ some b)
          × (stage (last_reviewed name rep.tracker) < stage (last_reviewed name rep'.tracker))
          × (stage (last_reviewed name rep'.tracker) ≤ 5)
  review_file-progress age b e f w =
      let (fresh, now) = counted age e b f w in
      let (rises, bound) =
        stage_rises age b (last_reviewed name rep.tracker) f (unfold is_reviewed in fresh) in
      (now, rw now rises, rw now bound)
