-- ===== src/Review/File/Graduate.antt =====
-- What a graduation writes and reports, and what later runs do with the file.
use dinomem.Prelude.{
  ℕ, ◌<◌, ◌≡◌, refl, inl, inr, Bool, true, some, List, [], ◌∷◌, ◌++◌, arith, Option-cases,
}
use dinomem.Prelude.Text.{Text, strip, is_space, text_eq, split}
use dinomem.Prelude.Text.Split.{split-append_sep, any-Lacks}
use dinomem.Prelude.Int.{ℤ}
use dinomem.Retention.Entry.{frozen_marker, is_frozen_text, frozen_lines}
use dinomem.Retention.Prune.{Surroundings}
use dinomem.Retention.Run.{visit}
use dinomem.Retention.Run.Files.{IsProtected, visit-IsProtected}
use dinomem.Review.Verdicts.{all_entries_valid}
use dinomem.Review.File.{
  Reviewer, Report, new_body, drop_file, write_review, judge_file, review_bucket, review_aged,
  review_file, review_file_with_llm, write_error,
}
use dinomem.Review.File.Spared.{IsSpared, review_file-spares}

frozen_first : (ls : List Text) → frozen_lines (frozen_marker ∷ ls) ≡ true
unfolding frozen_lines strip is_space text_eq
frozen_first ls = refl

-- A text that begins with the marker on a line of its own is frozen.
marked_is_frozen : (body : Text) → is_frozen_text (frozen_marker ++ (10 ∷ body)) ≡ true
unfolding is_frozen_text
marked_is_frozen body =
    rw (split-append_sep 10 frozen_marker body (any-Lacks 10 frozen_marker refl))
      (frozen_first (split 10 body))

module _ (r : Reviewer) (name content : Text) (rep : Report) where
  -- what a round has done that counts a graduation
  graduates :
      rep.files_frozen < (review_file r name content rep).0.files_frozen
      → (output : Text) × ((review_file r name content rep).1 ≡ some (new_body true output))
        × (all_entries_valid output ≡ true)
        × (r.answer name content ≡ some output)
  unfolding review_file review_aged review_bucket judge_file drop_file write_review
      review_file_with_llm
  graduates h = elim (Option-cases (r.answer name content)) [
    | inl e ↦ absurd (ground arith)
    | inr (output, e) ↦ (output, ground arith, ground arith, e)
  ]

  -- A round that counts a graduation leaves a text in which some entry is tagged and every tagged one is
  -- [valid], behind the marker. From then on no review changes the file or its place in the tracker, and no
  -- retention run touches it, whatever its age.
  pub graduate_is_final :
      (later : Reviewer) (rep' : Report) (w : Surroundings) (today : ℕ) (dry_run : Bool)
      (terminal_age : ℤ)
      → rep.files_frozen < (review_file r name content rep).0.files_frozen
      → (output : Text) × ((review_file r name content rep).1 ≡ some (new_body true output))
        × (all_entries_valid output ≡ true)
        × ((review_file later name (new_body true output) rep').1 ≡ some (new_body true output))
        × ((review_file later name (new_body true output) rep').0.tracker ≡ rep'.tracker)
        × ((visit w today dry_run terminal_age name (new_body true output)).1
            ≡ some (new_body true output))
  graduate_is_final later rep' w today dry_run terminal_age h =
      let (output, written, valid, _) = graduates h in
      let still : is_frozen_text (new_body true output) ≡ true =
        unfold new_body in marked_is_frozen (strip output ++ 10 ∷ []) in
      let (text, tracker) =
        review_file-spares later name (new_body true output) rep' (IsSpared.frozen still) in
      (
        output,
        written,
        valid,
        text,
        tracker,
        visit-IsProtected w today dry_run terminal_age name (new_body true output)
            (IsProtected.frozen still),
      )

  -- Every counted graduation is reported as a failed write: `_drop_reason` is not defined there, and the
  -- handler of the write catches its NameError.
  pub graduate_reports_error :
      rep.files_frozen < (review_file r name content rep).0.files_frozen
      → (review_file r name content rep).0.all_changes ≡ rep.all_changes ++ (write_error, name) ∷ []
  unfolding review_file review_aged review_bucket judge_file drop_file write_review
  graduate_reports_error h = ground arith
