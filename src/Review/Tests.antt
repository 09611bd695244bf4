-- ===== src/Review/Tests.antt =====
-- Reviews of small files and batches.
use dinomem.Prelude.{
  ℕ, ◌<◌, ◌≡◌, refl, true, false, none, some, List, [], ◌∷◌, ◌==◌, map, length, arith,
}
use dinomem.Prelude.Text.{Text, codes, split, text_eq, strip, is_space}
use dinomem.Prelude.Int.{pos}
use dinomem.Dates.{get_file_age}
use dinomem.Retention.Entry.{is_frozen_text, frozen_lines, match_tag}
use dinomem.Retention.Prune.{Surroundings}
use dinomem.Retention.Run.{Directory, visit}
use dinomem.Review.Batch.{get_batch_size, reset_total, wrap, new_cursor}
use dinomem.Review.Batch.Cycle.{batches, cycle_covers}
use dinomem.Prelude.Text.Lines.{splitlines}
use dinomem.Review.Verdicts.{line_verdict, all_entries_valid, scan_verdicts, lstrip_dashes}
use dinomem.Review.Bucket.{is_reviewed, applicable_bucket, last_reviewed, record_review}
use dinomem.Review.Prefilter.{
  Source, Embedder, embed_texts, readable, firsts, seconds, unflagged, get_embeddings_for_files,
  has_neighbor,
}
use dinomem.Review.File.{
  Reviewer, Report, review_file_with_llm, new_body, write_review, judge_file, review_bucket,
  review_aged, review_file,
}
use dinomem.Review.File.Spared.{IsSpared, review_file-spares}
use dinomem.Review.File.Graduate.{graduate_is_final}
use dinomem.Review.Run.{new_report}

-- 2025-06-30
abbrev present : ℕ
present = 739432

abbrev aged : Text
aged = codes "2024-11-02-notes.md"

abbrev entry_text : Text
entry_text = codes "- a fact\n"

abbrev verdict_text : Text
verdict_text = codes "- [valid] a fact\n- [valid] more\n"

-- a model that finds every entry valid, and no failures
abbrev reviewer : Reviewer
reviewer = record {
  today = present;
  answer = λ _ _. some verdict_text;
  unlink_fails = λ _. false;
  write_fails = λ _. false;
}

-- the file was reviewed in its bucket of 60 days
abbrev report_60 : Report
report_60 = new_report ((aged, 60) ∷ [])

aged_is_dated : get_file_age present aged ≡ some (pos 240)
unfolding get_file_age
aged_is_dated = refl

bucket_of_aged : applicable_bucket (pos 240) ≡ some 120
unfolding applicable_bucket
bucket_of_aged = refl

counts_review : (review_file reviewer aged entry_text report_60).0.files_reviewed ≡ 1
unfolding review_file review_aged review_bucket judge_file write_review review_file_with_llm
    is_reviewed last_reviewed record_review applicable_bucket get_file_age is_frozen_text
    frozen_lines all_entries_valid scan_verdicts splitlines line_verdict lstrip_dashes strip split
    is_space text_eq match_tag
counts_review = refl

counts_graduation : (review_file reviewer aged entry_text report_60).0.files_frozen ≡ 1
unfolding review_file review_aged review_bucket judge_file write_review review_file_with_llm
    is_reviewed last_reviewed record_review applicable_bucket get_file_age is_frozen_text
    frozen_lines all_entries_valid scan_verdicts splitlines line_verdict lstrip_dashes strip split
    is_space text_eq match_tag
counts_graduation = refl

aged_is_reviewed :
    report_60.files_reviewed < (review_file reviewer aged entry_text report_60).0.files_reviewed
aged_is_reviewed = omega (arith, counts_review)

aged_graduates :
    report_60.files_frozen < (review_file reviewer aged entry_text report_60).0.files_frozen
aged_graduates = omega (arith, counts_graduation)

abbrev calm_surroundings : Surroundings
calm_surroundings = record {
  last_touched = λ _. none;
  grace_days = pos 30;
  read_fails = λ _. false;
  unlink_fails = λ _. false;
  write_fails = λ _. false;
}

review_file-spares_example :
    ((review_file reviewer (codes "notes.md") entry_text report_60).1 ≡ some entry_text)
    × ((review_file reviewer (codes "notes.md") entry_text report_60).0.tracker ≡ report_60.tracker)
review_file-spares_example =
    review_file-spares reviewer (codes "notes.md") entry_text report_60
      (IsSpared.undated (unfold get_file_age in refl))

graduate_is_final_example :
    (output : Text) × ((review_file reviewer aged entry_text report_60).1
      ≡ some (new_body true output))
    × (all_entries_valid output ≡ true)
    × ((review_file reviewer aged (new_body true output) (new_report [])).1
        ≡ some (new_body true output))
    × ((review_file reviewer aged (new_body true output) (new_report [])).0.tracker ≡ [])
    × ((visit calm_surroundings 740000 false (pos 180) aged (new_body true output)).1
        ≡ some (new_body true output))
graduate_is_final_example =
    graduate_is_final reviewer aged entry_text report_60 reviewer (new_report []) calm_surroundings
      740000 false (pos 180) aged_graduates

abbrev seven : List ℕ
seven = 1 ∷ 2 ∷ 3 ∷ 4 ∷ 5 ∷ 6 ∷ 7 ∷ []

cycle_covers_example : batches 2 seven new_cursor ≡ seven
cycle_covers_example =
    cycle_covers 1 seven new_cursor (unfold wrap reset_total in refl)
      (unfold get_batch_size in omega arith) (unfold get_batch_size in omega arith)

-- A server whose vectors are the lengths, and similar where they are equal.
abbrev lengths : Embedder ℕ
lengths = record {
  request = λ _ texts. some (map (λ t. length t) texts);
  similar = λ a b. a == b;
  retries = 2;
  with_prefix = true;
}

abbrev sources : List Source
sources =
    record { path = codes "a.md"; text = some (codes "one") }
    ∷ record { path = codes "b.md"; text = some (codes "two") }
    ∷ []

abbrev embedded : List (Text × ℕ)
embedded = (codes "a.md", 10) ∷ (codes "b.md", 10) ∷ []

sources_are_embedded : get_embeddings_for_files lengths sources ≡ some embedded
unfolding get_embeddings_for_files embed_texts readable strip is_space
sources_are_embedded = refl

none_is_isolated :
    unflagged (firsts embedded) (has_neighbor (λ a b. a == b) (seconds embedded)) ≡ []
unfolding has_neighbor
none_is_isolated = refl

abbrev directory : Directory
directory = (aged, entry_text) ∷ (codes "2024-12-01.md", entry_text) ∷ []
