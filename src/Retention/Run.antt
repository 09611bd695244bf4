-- ===== src/Retention/Run.antt =====
-- `run` of procedures/memory_retention.py: one pass over the files of memory/.
pub mod Files
pub mod Counts
use dinomem.Prelude.{
  ℕ, suc, ◌+◌, Bool, true, false, ◌&&◌, ◌||◌, not, Option, none, some, List, [], ◌∷◌, if◌then◌else◌,
}
use dinomem.Prelude.Text.{Text, codes, text_eq, starts_with}
use dinomem.Prelude.Int.{ℤ, ltb_ℤ}
use dinomem.Dates.{get_file_age}
use dinomem.Retention.Entry.{is_frozen_text}
use dinomem.Retention.Prune.{Surroundings, Action, unlink, prune, keep, skip, Outcome, prune_file}

-- The files that `sorted(MEMORY_DIR.glob("*.md"))` lists, in that order.
abbrev pub Directory : Type 0
Directory = List (Text × Text)

pub record Totals : Type 0 where
  pub files_unlinked : ℕ
  pub files_pruned : ℕ
  pub files_kept : ℕ
  pub files_skipped : ℕ
  pub entries_removed : ℕ

abbrev pub no_totals : Totals
no_totals = record {
  files_unlinked = 0;
  files_pruned = 0;
  files_kept = 0;
  files_skipped = 0;
  entries_removed = 0;
}

-- `passed` is a `continue` that counts nothing.
pub data Visit : Type 0 where
  passed skipped : Visit
  judged : Outcome → Visit

-- `is_frozen`; a file that cannot be opened is not frozen
unfoldable pub is_frozen : Surroundings → Text → Text → Bool
is_frozen w name content = not (w.read_fails name) && is_frozen_text content

-- the two tests of the age, and the call
unfoldable pub visit_aged : Surroundings → Bool → ℤ → Text → Text → Option ℤ → Visit × Option Text
visit_aged w dry_run terminal_age name content none = (skipped, some content)
visit_aged w dry_run terminal_age name content (some age) =
    if ltb_ℤ age terminal_age
    then (passed, some content)
    else let (o, after) = prune_file w dry_run name content in (judged o, after)

-- The body of the loop. The directory is memory/ itself, so the test on the parent's name never holds.
unfoldable pub visit : Surroundings → ℕ → Bool → ℤ → Text → Text → Visit × Option Text
visit w today dry_run terminal_age name content =
    if text_eq (codes "memory") (codes "_history")
    then (passed, some content)
    else if text_eq name (codes "MEMORY.md") || starts_with (codes "_") name
    then (passed, some content)
    else if is_frozen w name content
    then (skipped, some content)
    else visit_aged w dry_run terminal_age name content (get_file_age today name)

unfoldable pub count_action : Action → Outcome → Totals → Totals
count_action unlink o t = record t {
  files_unlinked = suc t.files_unlinked;
  entries_removed = t.entries_removed + o.removed_entries;
}
count_action prune o t = record t {
  files_pruned = suc t.files_pruned;
  entries_removed = t.entries_removed + o.removed_entries;
}
count_action keep o t = record t { files_kept = suc t.files_kept }
count_action skip o t = record t { files_skipped = suc t.files_skipped }

unfoldable pub count_visit : Visit → Totals → Totals
unfolding count_action
count_visit passed t = t
count_visit skipped t = record t { files_skipped = suc t.files_skipped }
count_visit (judged o) t = count_action o.action o t

-- the file's place in the directory afterwards
abbrev pub put_back : Text → Option Text → Directory → Directory
put_back name none rest = rest
put_back name (some content) rest = (name, content) ∷ rest

unfoldable pub run_files : Surroundings → ℕ → Bool → ℤ → Totals → Directory → Totals × Directory
run_files w today dry_run terminal_age t [] = (t, [])
run_files w today dry_run terminal_age t ((name, content) ∷ files) =
    let (v, after) = visit w today dry_run terminal_age name content in
    let (u, rest) = run_files w today dry_run terminal_age (count_visit v t) files in
    (u, put_back name after rest)

-- `run`; `none` when the directory is not there
unfoldable pub run : Surroundings → ℕ → Bool → ℤ → Option Directory → Totals × Option Directory
run w today dry_run terminal_age none = (no_totals, none)
run w today dry_run terminal_age (some files) =
    let (t, after) = run_files w today dry_run terminal_age no_totals files in (t, some after)
