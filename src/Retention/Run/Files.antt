-- ===== src/Retention/Run/Files.antt =====
-- What a whole run does to the directory: protected files, valid entries, counts, dry runs.
use dinomem.Prelude.{
  ℕ, ◌≡◌, refl, ap, ◌∙◌, inl, inr, Bool, true, false, Option, none, some, List, [], ◌∷◌, ◌++◌,
  arith, Bool-cases, if◌then◌else◌,
}
use dinomem.Prelude.Text.{Text, codes, text_eq, text_eq_iff, starts_with}
use dinomem.Prelude.Int.{ℤ, ltb_ℤ}
use dinomem.Dates.{get_file_age}
use dinomem.Retention.Entry.{is_frozen_text}
use dinomem.Retention.Prune.{Surroundings, prune_file}
use dinomem.Retention.Prune.Keeps.{valid_entries, entries_after, prune_file-keeps_valid}
use dinomem.Retention.Run.{
  Directory, Totals, is_frozen, visit_aged, visit, count_visit, put_back, run_files,
}

-- Files of a kind that the sweep passes over: the index, pins and notes, frozen files, files with no date in the
-- name, and files younger than the terminal age.
pub data IsProtected (today : ℕ) (terminal_age : ℤ) (name content : Text) : Type 0 where
  index : name ≡ codes "MEMORY.md" → IsProtected today terminal_age name content
  managed : (rest : Text) → name ≡ codes "_" ++ rest → IsProtected today terminal_age name content
  frozen : is_frozen_text content ≡ true → IsProtected today terminal_age name content
  undated : get_file_age today name ≡ none → IsProtected today terminal_age name content
  young :
      (age : ℤ)
      → get_file_age today name ≡ some age
      → ltb_ℤ age terminal_age ≡ true
      → IsProtected today terminal_age name content

-- The first file of that name.
unfoldable pub find_file : Text → Directory → Option Text
find_file name [] = none
find_file name ((n, content) ∷ files) =
    if text_eq n name then some content else find_file name files

starts_managed : (name rest : Text) → name ≡ codes "_" ++ rest → starts_with (codes "_") name ≡ true
unfolding starts_with
starts_managed name rest e = rw e

find-put_back_same :
    (n name : Text) (after : Option Text) (rest : Directory) (content : Text)
    → text_eq n name ≡ true
    → after ≡ some content
    → find_file name (put_back n after rest) ≡ some content
unfolding find_file
find-put_back_same n name none rest content h e = absurd (cc e)
find-put_back_same n name (some c) rest content h e = rw h e

find-put_back_ne :
    (n name : Text) (after : Option Text) (rest : Directory)
    → text_eq n name ≡ false
    → find_file name (put_back n after rest) ≡ find_file name rest
unfolding find_file
find-put_back_ne n name none rest h = refl
find-put_back_ne n name (some c) rest h = rw h

-- The entries tagged [valid] of all files.
abbrev pub dir_entries : Directory → List Text
dir_entries [] = []
dir_entries ((n, c) ∷ files) = valid_entries c ++ dir_entries files

module _ (w : Surroundings) (today : ℕ) (dry_run : Bool) (terminal_age : ℤ) where
  unreadable :
      (name content : Text)
      → w.read_fails name ≡ true
      → (prune_file w dry_run name content).1 ≡ some content
  unfolding prune_file
  unreadable name content h = rw h

  pub visit-IsProtected :
      (name content : Text)
      → IsProtected today terminal_age name content
      → (visit w today dry_run terminal_age name content).1 ≡ some content
  unfolding visit visit_aged is_frozen
  visit-IsProtected name content (IsProtected.index e) =
      ground (arith, text_eq_iff name (codes "MEMORY.md"))
  visit-IsProtected name content (IsProtected.managed rest e) =
      ground (arith, starts_managed name rest e)
  visit-IsProtected name content (IsProtected.frozen e) = ground (arith, unreadable name content)
  visit-IsProtected name content (IsProtected.undated e) = ground arith
  visit-IsProtected name content (IsProtected.young age e l) = ground arith

  -- The run leaves a protected file as it is, whatever else is in the directory.
  pub run_files-protects :
      (t : Totals) (files : Directory) (name content : Text)
      → find_file name files ≡ some content
      → IsProtected today terminal_age name content
      → find_file name (run_files w today dry_run terminal_age t files).1 ≡ some content
  unfolding run_files find_file
  run_files-protects t [] name content e p = absurd (cc e)
  run_files-protects t ((n, c) ∷ files) name content e p = elim (Bool-cases (text_eq n name)) [
    | inl same ↦
        find-put_back_same n name (visit w today dry_run terminal_age n c).1 _ content same
          (same_visit ((text_eq_iff n name).0 same) (rw same at e))
    | inr other ↦
        find-put_back_ne n name (visit w today dry_run terminal_age n c).1 _ other
        ∙ run_files-protects (count_visit (visit w today dry_run terminal_age n c).0 t) files name
            content (rw other at e) p
  ]
    where
      same_visit :
          n ≡ name
          → some c ≡ some content
          → (visit w today dry_run terminal_age n c).1 ≡ some content
      same_visit a b = cc (visit-IsProtected name content p)

  put_back-entries :
      (n c : Text) (after : Option Text) (rest files : Directory)
      → entries_after after ≡ valid_entries c
      → dir_entries rest ≡ dir_entries files
      → dir_entries (put_back n after rest) ≡ dir_entries ((n, c) ∷ files)
  put_back-entries n c none rest files e h = h ∙ ap (λ v. v ++ dir_entries files) e
  put_back-entries n c (some d) rest files e h = cc

  visit-keeps_valid :
      (name content : Text)
      → entries_after (visit w today dry_run terminal_age name content).1 ≡ valid_entries content
  unfolding visit visit_aged
  visit-keeps_valid name content = ground (arith, prune_file-keeps_valid w dry_run name content)

  -- No run loses an entry tagged [valid] of any file.
  pub run_files-keeps_valid :
      (t : Totals) (files : Directory)
      → dir_entries (run_files w today dry_run terminal_age t files).1 ≡ dir_entries files
  unfolding run_files
  run_files-keeps_valid t [] = refl
  run_files-keeps_valid t ((n, c) ∷ files) =
      let (v, after) = visit w today dry_run terminal_age n c in
      put_back-entries n c after (run_files w today dry_run terminal_age (count_visit v t) files).1
        files (visit-keeps_valid n c) (run_files-keeps_valid (count_visit v t) files)
