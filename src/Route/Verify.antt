-- ===== src/Route/Verify.antt =====
-- `_verify` of tools/route.py: whether a routed write has landed. What the probes of the command line and of the
-- disk see, `str.lower` and the reading of a path below the workspace are parameters.
use dinomem.Prelude.{
  Bool, true, false, ◌&&◌, ◌||◌, Option, none, some, List, [], ◌∷◌, any, if◌then◌else◌,
}
use dinomem.Route.Gate.{basename}
use dinomem.Prelude.Text.{Text, codes, text_eq, contains, strip}

-- A listing is none when the command line is not available; the memory is none without its directory, and
-- a file in it is none when it cannot be read.
pub record Probe : Type 0 where
  pub lower : Text → Text
  pub cron_list : Option Text
  pub hooks_list : Option Text
  pub is_hook_dir : Text → Bool
  pub is_skill_file : Text → Bool
  pub agents : Option Text
  pub read_path : Text → Option Text
  pub memory_files : Option (List (Option Text))

abbrev pub shows : Option Text → Text → Bool
shows none needle = false
shows (some out) needle = contains needle out

abbrev pub listed_or : Option Text → Text → Bool → Bool
listed_or none needle exists = exists
listed_or (some out) needle exists = contains needle out

abbrev pub is_forbidden : Text → Bool
is_forbidden base = text_eq base (codes "MEMORY.md") || text_eq base (codes "USER.md")

abbrev pub is_empty : Text → Bool
is_empty [] = true
is_empty (c ∷ s) = false

unfoldable pub verify_root : Probe → Text → Text → Bool
verify_root p needle target_file =
    if is_forbidden (basename target_file)
    then false
    else if is_empty target_file
    then false
    else shows (p.read_path target_file) needle

abbrev pub in_memory : Option (List (Option Text)) → Text → Bool
in_memory none needle = false
in_memory (some files) needle = any (λ f. shows f needle) files

-- `_verify`: the first of the two answers
unfoldable pub verify : Probe → Text → Text → Text → Bool
verify p surface needle target_file =
    let s = p.lower (strip surface) in
    if text_eq s (codes "cron")
    then shows p.cron_list needle
    else if text_eq s (codes "hook")
    then p.is_hook_dir needle && listed_or p.hooks_list needle (p.is_hook_dir needle)
    else if text_eq s (codes "skill")
    then p.is_skill_file needle && shows p.agents needle
    else if text_eq s (codes "root")
    then verify_root p needle target_file
    else if text_eq s (codes "memory")
    then in_memory p.memory_files needle
    else false
