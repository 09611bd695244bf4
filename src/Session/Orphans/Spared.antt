-- ===== src/Session/Orphans/Spared.antt =====
-- `cleanup_orphaned_files` and the transcripts that sessions track.
use dinomem.Prelude.{
  ℕ, ◌≡◌, refl, ap, ◌∙◌, inl, inr, true, false, Option, List, [], ◌∷◌, ◌++◌, any, All, arith,
  Bool-cases, Option-cases,
}
use dinomem.Prelude.Text.{Text, codes, text_eq, text_eq_iff}
use dinomem.Session.Clean.{Entry, cleanup_jsonl_content, written}
use dinomem.Session.Chain.{Files, read_file}
use dinomem.Session.Archive.{has_slash, is_archived, Place, write_file}
use dinomem.Session.Archive.Names.{archived_behind, stamped_lacks}
use dinomem.Session.Archive.Measure.{read-write_ne}
use dinomem.Session.Reset.Mapping.{read-unlink_ne}
use dinomem.Session.Orphans.{
  OrphanInfo, add_info, orphan_path, get_orphaned_files, archive_cleaned, archive_orphaned_file,
  visit_orphan, archive_orphans, cleanup_orphaned_files,
}

-- The path is none of those in the list.
abbrev IsOther : Text → List (Text × ℕ) → Type 0
IsOther q = All (λ o. text_eq o.0 q ≡ false)

orphaned-IsOther :
    (q : Text) (tracked : List Text) (age : Text → Option ℕ) (listed : List Text)
    → any (text_eq q) tracked ≡ true
    → IsOther q (get_orphaned_files tracked age listed)
unfolding get_orphaned_files
orphaned-IsOther q tracked age [] h = tt
orphaned-IsOther q tracked age (p ∷ listed) h =
    ground (arith, text_eq_iff p q, orphaned-IsOther q tracked age listed h)

module _ (w : Place) (named : has_slash w.timestamp ≡ false) (q : Text)
    (plain : is_archived q ≡ false) where
  orphan_path_other : (path : Text) → text_eq (orphan_path w path) q ≡ false
  unfolding orphan_path
  orphan_path_other path =
      let arch =
        archived_behind w.dir path (codes "orphan." ++ (w.timestamp ++ codes ".jsonl"))
          (ground (arith, stamped_lacks w.timestamp named)) in
      elim (Bool-cases (text_eq (orphan_path w path) q)) [
        | inl e ↦
            absurd (cc (ap is_archived ((text_eq_iff (orphan_path w path) q).0 e), arch, plain))
        | inr n ↦ n
      ]

  cleaned_other :
      (path : Text) (es : List Entry) (files : Files)
      → text_eq path q ≡ false
      → read_file q (archive_cleaned w path es files).1 ≡ read_file q files
  unfolding archive_cleaned
  cleaned_other path [] files n = read-unlink_ne q path files n
  cleaned_other path (e ∷ es) files n = ground (
    arith,
    read-unlink_ne q path (write_file (orphan_path w path) (written (e ∷ es)) files) n
        ∙ read-write_ne q (orphan_path w path) (written (e ∷ es)) files (orphan_path_other path),
  )

  archived_other :
      (path : Text) (files : Files)
      → text_eq path q ≡ false
      → read_file q (archive_orphaned_file w path files).1 ≡ read_file q files
  unfolding archive_orphaned_file
  archived_other path files n = elim (Option-cases (read_file path files)) [
    | inl gone ↦ rw (gone, archive_orphaned_file)
    | inr (lines, found) ↦
        rw (found, archive_orphaned_file)
          (cleaned_other path (cleanup_jsonl_content lines).0 files n)
  ]

  archive_orphans-others :
      (t : ℕ × List OrphanInfo) (orphaned : List (Text × ℕ)) (files : Files)
      → IsOther q orphaned
      → read_file q (archive_orphans w t orphaned files).1 ≡ read_file q files
  unfolding archive_orphans visit_orphan
  archive_orphans-others t [] files h = refl
  archive_orphans-others t ((path, age) ∷ orphaned) files h =
      let (info, after) = visit_orphan w path age files in
      archive_orphans-others (add_info info t) orphaned after h.1
      ∙ ground (arith, archived_other path files h.0)

  -- Where the timestamp has no slash, a tracked transcript that is no archive by its name is not changed
  -- by the clean-up of orphans, whatever its age.
  pub cleanup_orphaned_files-tracked :
      (tracked : List Text) (age : Text → Option ℕ) (listed : List Text) (files : Files)
      → any (text_eq q) tracked ≡ true
      → read_file q (cleanup_orphaned_files w tracked age listed files).1 ≡ read_file q files
  unfolding cleanup_orphaned_files
  cleanup_orphaned_files-tracked tracked age listed files h =
      archive_orphans-others (0, []) (get_orphaned_files tracked age listed) files
        (orphaned-IsOther q tracked age listed h)
