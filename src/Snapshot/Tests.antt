-- ===== src/Snapshot/Tests.antt =====
-- Paths of the three kinds, and three snapshots.
use dinomem.Prelude.{List, any, ◌≡◌, refl, Bool, true, false, Option, none, some, [], ◌∷◌, any}
use dinomem.Prelude.Text.{
  Text, codes, text_eq, starts_with, strip_prefix, contains, split, cons_first, join,
}
use dinomem.Snapshot.{
  Tree, with_prefixes, is_skipped_part, skip, is_archived, over, create_snapshot, restore_all,
  first_containing, pick,
}
use dinomem.Snapshot.Restored.Kept.{
  undo_path, note_path, cache_path, is_waste, restore_all-create_snapshot,
}

abbrev note : Text
note = codes "memory/a.md"

abbrev before : Tree
before p = if_note (text_eq p note)
  where
    if_note : Bool → Option Text
    if_note true = some (codes "old")
    if_note false = none

abbrev emptied : Tree
emptied p = none

abbrev listed : List Text
listed = undo_path (codes "logs/HEAD") ∷ note ∷ cache_path (codes "tee") ∷ []

undo_is_listed : any (text_eq (undo_path (codes "logs/HEAD"))) listed ≡ true
unfolding text_eq
undo_is_listed = refl

note_is_listed : any (text_eq (note_path (codes "a.md"))) listed ≡ true
unfolding text_eq
note_is_listed = refl

a_is_no_waste : is_waste (codes "a.md") ≡ false
unfolding text_eq
a_is_no_waste = refl

restore_all-create_snapshot_example :
    let r = (restore_all (create_snapshot before listed (some (codes "{}"))) emptied none).0 in
    (r (undo_path (codes "logs/HEAD"))
      ≡ over (before (undo_path (codes "logs/HEAD"))) (emptied (undo_path (codes "logs/HEAD"))))
    × (r (note_path (codes "a.md"))
        ≡ over (before (note_path (codes "a.md"))) (emptied (note_path (codes "a.md"))))
    × (r (cache_path (codes "logs/HEAD")) ≡ emptied (cache_path (codes "logs/HEAD")))
restore_all-create_snapshot_example =
    restore_all-create_snapshot before emptied listed (some (codes "{}")) none (codes "logs/HEAD")
      (codes "a.md") undo_is_listed note_is_listed (refl, (refl, (refl, (refl, tt)))) a_is_no_waste

note-is_archived : is_archived note ≡ true
unfolding is_archived skip is_skipped_part with_prefixes split cons_first join text_eq starts_with
    strip_prefix
note-is_archived = refl

cache_stays_out : skip (codes "memory/cache/tee") ≡ true
unfolding skip is_skipped_part with_prefixes split cons_first join text_eq starts_with strip_prefix
cache_stays_out = refl

reflog_goes_in : is_archived (codes ".dinomem-snap.git/logs/HEAD") ≡ true
unfolding is_archived skip is_skipped_part with_prefixes split cons_first join text_eq starts_with
    strip_prefix
reflog_goes_in = refl

-- The second of the list is asked for by its number, and the newest is picked, which has a 2 in its name.
number_is_a_part :
    pick
      (λ t names. some (codes "second"))
      (codes "2")
      (codes "snapshot-20261108-020000.tar.gz" ∷ codes "snapshot-20261101-020000.tar.gz" ∷ [])
    ≡ some (codes "snapshot-20261108-020000.tar.gz")
unfolding pick first_containing contains starts_with strip_prefix text_eq
number_is_a_part = refl
