-- ===== src/Retention/Tests.antt =====
-- Runs of the retention sweep on small directories.
use dinomem.Prelude.{ℕ, ◌≡◌, refl, ◌↔◌, false, none, some, [], ◌∷◌, any, take, count}
use dinomem.Prelude.Text.{Text, codes, split, text_eq, strip, join}
use dinomem.Prelude.Int.{pos}
use dinomem.Dates.{get_file_age}
use dinomem.Retention.Entry.{
  newline, line_is_valid_entry, line_is_entry, entry_tag, is_bullet, seeds_valid,
}
use dinomem.Retention.Prune.{
  Surroundings, Action, recently_reinforced, tally, tally_line, new_text, decide_file, prune_file,
}
use dinomem.Retention.Prune.Keeps.{
  valid_entries, entries_after, prune_file-keeps_valid, prune_file-deletes,
}
use dinomem.Retention.Run.{Directory, no_totals, run_files}
use dinomem.Retention.Run.Files.{IsProtected, find_file, run_files-protects}

-- 2025-06-30
abbrev today : ℕ
today = 739432

abbrev old_name : Text
old_name = codes "2024-11-02-notes.md"

abbrev new_name : Text
new_name = codes "2025-06-01-notes.md"

abbrev mixed : Text
mixed = codes "# Notes\n- [valid] keep\n- [noise] drop\nprose\n"

abbrev stale : Text
stale = codes "# Old\n- [noise] drop\n- plain\n"

abbrev settled : Text
settled = codes "# Notes\n- [valid] keep\nprose\n"

-- git knows nothing, and no operation fails
abbrev calm : Surroundings
calm = record {
  last_touched = λ _. none;
  grace_days = pos 30;
  read_fails = λ _. false;
  unlink_fails = λ _. false;
  write_fails = λ _. false;
}

abbrev folder : Directory
folder = (old_name, stale) ∷ (new_name, stale) ∷ (codes "2024-01-05.md", mixed) ∷ []

age_of_old : get_file_age today old_name ≡ some (pos 240)
unfolding get_file_age
age_of_old = refl

mixed_is_pruned : (prune_file calm false old_name mixed).1 ≡ some settled
unfolding prune_file decide_file tally tally_line new_text line_is_entry line_is_valid_entry
    entry_tag is_bullet seeds_valid recently_reinforced split strip join
mixed_is_pruned = refl

mixed_is_pruned_action : (prune_file calm false old_name mixed).0.action ≡ Action.prune
unfolding prune_file decide_file tally tally_line new_text line_is_entry line_is_valid_entry
    entry_tag is_bullet seeds_valid recently_reinforced split strip join
mixed_is_pruned_action = refl

stale_is_deleted : (prune_file calm false old_name stale).1 ≡ none
unfolding prune_file decide_file tally tally_line new_text line_is_entry line_is_valid_entry
    entry_tag is_bullet seeds_valid recently_reinforced split strip join
stale_is_deleted = refl

new_is_listed : find_file new_name folder ≡ some stale
unfolding find_file text_eq
new_is_listed = refl

new_is_dated : get_file_age today new_name ≡ some (pos 29)
unfolding get_file_age
new_is_dated = refl

prune_file-keeps_valid_example :
    entries_after (prune_file calm false old_name mixed).1 ≡ valid_entries mixed
prune_file-keeps_valid_example = prune_file-keeps_valid calm false old_name mixed

prune_file-deletes_example : ((prune_file calm false old_name stale).1 ≡ none) ↔ (
    (false ≡ false)
    × (calm.read_fails old_name ≡ false)
    × (calm.unlink_fails old_name ≡ false)
    × (any seeds_valid (take 15 (split newline stale)) ≡ false)
    × (count line_is_valid_entry (split newline stale) ≡ 0)
    × (recently_reinforced calm old_name ≡ false))
prune_file-deletes_example = prune_file-deletes calm false old_name stale

run_files-protects_example :
    find_file new_name (run_files calm today false (pos 180) no_totals folder).1 ≡ some stale
run_files-protects_example =
    run_files-protects calm today false (pos 180) no_totals folder new_name stale new_is_listed
      (IsProtected.young (pos 29) new_is_dated refl)
