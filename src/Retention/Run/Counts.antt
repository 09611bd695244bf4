-- ===== src/Retention/Run/Counts.antt =====
-- The totals of a run, dry and real.
use dinomem.Prelude.{ℕ, suc, ◌+◌, ◌≡◌, refl, ap, ◌∙◌, true, false, some, [], ◌∷◌, arith, length}
use dinomem.Prelude.Text.{Text}
use dinomem.Prelude.Int.{ℤ}
use dinomem.Retention.Prune.{Surroundings, prune_file, decide_file}
use dinomem.Retention.Run.{Directory, Totals, visit_aged, visit, count_visit, put_back, run_files}

module _ (w : Surroundings) (today : ℕ) (terminal_age : ℤ) where
  visit-unlinked :
      (name content : Text) (t : Totals) (rest : Directory)
      → length (put_back name (visit w today false terminal_age name content).1 rest)
          + (count_visit (visit w today false terminal_age name content).0 t).files_unlinked
        ≡ suc (length rest) + t.files_unlinked
  unfolding visit visit_aged count_visit prune_file decide_file
  visit-unlinked name content t rest = ground arith

  -- The files that a real run reports as unlinked are as many as the directory has lost.
  pub run_files-unlinked :
      (t : Totals) (files : Directory)
      → length (run_files w today false terminal_age t files).1
          + (run_files w today false terminal_age t files).0.files_unlinked
        ≡ length files + t.files_unlinked
  unfolding run_files
  run_files-unlinked t [] = refl
  run_files-unlinked t ((n, c) ∷ files) =
      let (v, after) = visit w today false terminal_age n c in
      omega (
        arith,
        run_files-unlinked (count_visit v t) files,
        visit-unlinked n c (count_visit v t)
            (run_files w today false terminal_age (count_visit v t) files).1,
        visit-unlinked n c t [],
        visit-unlinked n c t (run_files w today false terminal_age (count_visit v t) files).1,
      )

  visit-dry_run :
      (name content : Text)
      → w.unlink_fails name ≡ false
      → w.write_fails name ≡ false
      → ((visit w today true terminal_age name content).0
          ≡ (visit w today false terminal_age name content).0)
        × ((visit w today true terminal_age name content).1 ≡ some content)
  unfolding visit visit_aged prune_file decide_file
  visit-dry_run name content u v = ground arith

  -- A dry run changes nothing, and where no removal or write fails it reports the totals of the real run.
  pub run_files-dry_run :
      ((name : Text) → w.unlink_fails name ≡ false)
      → ((name : Text) → w.write_fails name ≡ false)
      → (t : Totals) (files : Directory)
      → ((run_files w today true terminal_age t files).0
          ≡ (run_files w today false terminal_age t files).0)
        × ((run_files w today true terminal_age t files).1 ≡ files)
  unfolding run_files
  run_files-dry_run u v t [] = (refl, refl)
  run_files-dry_run u v t ((n, c) ∷ files) =
      let (same, kept) = visit-dry_run n c (u n) (v n) in
      let (ih, ik) =
        run_files-dry_run u v (count_visit (visit w today true terminal_age n c).0 t) files in
      (
        ih ∙ ap (λ x. (run_files w today false terminal_age (count_visit x t) files).0) same,
        rw kept (ap (λ r. (n, c) ∷ r) ik),
      )
