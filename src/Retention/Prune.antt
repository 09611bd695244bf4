-- ===== src/Retention/Prune.antt =====
-- `prune_file` of procedures/memory_retention.py.
pub mod Lines
pub mod Keeps
use dinomem.Prelude.{
  ℕ, suc, ◌+◌, Bool, true, false, ◌&&◌, not, Option, none, some, List, [], ◌∷◌, ◌++◌, ◌==◌, any,
  take, if◌then◌else◌,
}
use dinomem.Prelude.Text.{Text, split, join, strip}
use dinomem.Prelude.Int.{ℤ, leb_ℤ}
use dinomem.Retention.Entry.{newline, line_is_entry, line_is_valid_entry, seeds_valid}

-- What one run meets outside the memory files: the days since git last saw a file touched (`none`
-- when git_history is absent, fails, or knows nothing), the grace window, and which file
-- operations raise.
pub record Surroundings : Type 0 where
  pub last_touched : Text → Option ℤ
  pub grace_days : ℤ
  pub read_fails : Text → Bool
  pub unlink_fails : Text → Bool
  pub write_fails : Text → Bool

pub data Action : Type 0 where
  unlink prune keep skip : Action

pub record Outcome : Type 0 where
  pub action : Action
  pub removed_entries : ℕ
  pub kept_entries : ℕ

-- `_git_recently_reinforced`
unfoldable pub recently_reinforced : Surroundings → Text → Bool
recently_reinforced w name = elim (w.last_touched name) [
  | none ↦ false
  | some age ↦ leb_ℤ age w.grace_days
]

pub record Tally : Type 0 where
  pub kept_lines : List Text
  pub valid_count : ℕ
  pub removed : ℕ

-- one round of the loop over the lines
unfoldable pub tally_line : Text → Tally → Tally
tally_line line t =
    if line_is_entry line
    then (if line_is_valid_entry line
        then record t { kept_lines = t.kept_lines ++ line ∷ []; valid_count = suc t.valid_count }
        else record t { removed = suc t.removed })
    else record t { kept_lines = t.kept_lines ++ line ∷ [] }

unfoldable pub tally : Tally → List Text → Tally
tally t [] = t
tally t (line ∷ lines) = tally (tally_line line t) lines

abbrev pub no_lines : Tally
no_lines = record { kept_lines = []; valid_count = 0; removed = 0 }

-- the text that replaces the file
unfoldable pub new_text : List Text → Text
new_text lines = strip (join (newline ∷ []) lines) ++ newline ∷ []

-- The file afterwards: `none` when it is gone.
abbrev pub After : Type 0
After = Outcome × Option Text

abbrev answer : Action → ℕ → ℕ → Option Text → After
answer a removed kept text =
    (record { action = a; removed_entries = removed; kept_entries = kept }, text)

-- what follows the loop
unfoldable pub decide_file : Surroundings → Bool → Text → Text → Tally → After
decide_file w dry_run name content t =
    if t.valid_count == 0
    then (if recently_reinforced w name
        then answer keep 0 0 (some content)
        else if not dry_run && w.unlink_fails name
        then answer skip t.removed 0 (some content)
        else answer unlink t.removed 0 (if dry_run then some content else none))
    else if t.removed == 0
    then answer keep 0 t.valid_count (some content)
    else if not dry_run && w.write_fails name
    then answer skip t.removed t.valid_count (some content)
    else answer prune t.removed t.valid_count
        (some (if dry_run then content else new_text t.kept_lines))

-- `prune_file`
unfoldable pub prune_file : Surroundings → Bool → Text → Text → After
prune_file w dry_run name content =
    let lines = split newline content in
    if w.read_fails name
    then answer skip 0 0 (some content)
    else if any seeds_valid (take 15 lines)
    then answer keep 0 1 (some content)
    else decide_file w dry_run name content (tally no_lines lines)
