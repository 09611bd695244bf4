-- ===== src/Cleanup/Passes/Bootcheck.antt =====
-- The third pass: it removes no file with a tagged item, and what it removes is in the archive.
use dinomem.Prelude.{◌≡◌, ap, ◌∙◌, inl, inr, true, false, some, [], ◌∷◌, ◌++◌, Bool-cases}
use dinomem.Prelude.Text.{Text, codes, text_eq, text_eq_iff, contains}
use dinomem.Prelude.Text.Lines.{contains-append}
use dinomem.Retention.Entry.{newline}
use dinomem.Retention.Run.{Directory}
use dinomem.Retention.Run.Files.{find_file}
use dinomem.Cleanup.Dedup.{Tools}
use dinomem.Cleanup.Passes.{
  Moment, archive_name, has_real_content, is_bootcheck, bootcheck_note, bootcheck_pass,
}
use dinomem.Cleanup.Passes.Lines.{
  contains-append_left, archived, archived-append_file, append_file-grows,
}

some_inj : (a b : Text) → some a ≡ some b → a ≡ b
some_inj a b e = cc

module _ (w : Tools) (m : Moment) where
  note_has : (name content : Text) → contains content (bootcheck_note m name content) ≡ true
  unfolding bootcheck_note
  note_has name content =
      contains-append content
        (codes "# Bootcheck removal from "
          ++ (name ++ (codes " on " ++ (m.today_display ++ codes "\n\n"))))
        (newline ∷ [])

  bootcheck_pass-grows :
      (files archive : Directory) (l a : Text)
      → contains l (archived a archive) ≡ true
      → contains l (archived a (bootcheck_pass w m files archive).1.1) ≡ true
  unfolding bootcheck_pass
  bootcheck_pass-grows [] archive l a h = h
  bootcheck_pass-grows ((n, c) ∷ files) archive l a h = elim (Bool-cases (is_bootcheck w c)) [
    | inl e ↦ rw e (bootcheck_pass-grows files _ l a (append_file-grows l a _ _ archive h))
    | inr d ↦ rw d (bootcheck_pass-grows files archive l a h)
  ]

  not_bootcheck : (c : Text) → has_real_content c ≡ true → is_bootcheck w c ≡ false
  unfolding is_bootcheck
  not_bootcheck c h = rw h

  -- The third pass keeps every file with a tagged item, in the place where it is found by its name.
  pub bootcheck_pass-keeps :
      (files archive : Directory) (name content : Text)
      → find_file name files ≡ some content
      → has_real_content content ≡ true
      → find_file name (bootcheck_pass w m files archive).1.0 ≡ some content
  unfolding bootcheck_pass find_file
  bootcheck_pass-keeps [] archive name content e h = absurd (cc e)
  bootcheck_pass-keeps ((n, c) ∷ files) archive name content e h =
      elim (Bool-cases (text_eq n name)) [
        | inl k ↦
            rw (not_bootcheck c (ap has_real_content (some_inj c content (rw k at e)) ∙ h), k)
              (rw k at e)
        | inr d ↦ elim (Bool-cases (is_bootcheck w c)) [
          | inl g ↦ rw g (bootcheck_pass-keeps files _ name content (rw d at e) h)
          | inr g ↦ rw (g, d) (bootcheck_pass-keeps files archive name content (rw d at e) h)
        ]
      ]

  bootcheck_same :
      (n c content : Text) (files archive : Directory) (name : Text)
      → n ≡ name
      → c ≡ content
      → is_bootcheck w content ≡ true
      → contains content (
          archived
            (archive_name name (codes "_bootcheck_") m.today_str)
            (bootcheck_pass w m ((n, c) ∷ files) archive).1.1)
        ≡ true
  unfolding bootcheck_pass
  bootcheck_same n c content files archive name p q h =
      rw (p, q, h)
        (bootcheck_pass-grows files _ content _ (
          rw
            (archived-append_file (archive_name name (codes "_bootcheck_") m.today_str)
              (bootcheck_note m name content) archive)
            (contains-append_left content _ (bootcheck_note m name content)
              (note_has name content))))

  -- The text of every file that the third pass removes is afterwards in the file of the archive that is named
  -- after it and the day.
  pub bootcheck_pass-archives :
      (files archive : Directory) (name content : Text)
      → find_file name files ≡ some content
      → is_bootcheck w content ≡ true
      → contains content (
          archived
            (archive_name name (codes "_bootcheck_") m.today_str)
            (bootcheck_pass w m files archive).1.1)
        ≡ true
  unfolding bootcheck_pass find_file
  bootcheck_pass-archives [] archive name content e h = absurd (cc e)
  bootcheck_pass-archives ((n, c) ∷ files) archive name content e h =
      elim (Bool-cases (text_eq n name)) [
        | inl k ↦
            bootcheck_same n c content files archive name ((text_eq_iff n name).0 k)
              (some_inj c content (rw k at e)) h
        | inr d ↦ elim (Bool-cases (is_bootcheck w c)) [
          | inl g ↦ rw g (bootcheck_pass-archives files _ name content (rw d at e) h)
          | inr g ↦ rw g (bootcheck_pass-archives files archive name content (rw d at e) h)
        ]
      ]
