-- ===== src/Route/Gate.antt =====
-- The gate of tools/route.py: `_validate_action`, whose texts of refusals are left out.
pub mod Plans
use dinomem.Prelude.{
  ℕ, suc, ◌-◌, Bool, true, false, ◌&&◌, ◌||◌, not, Option, none, some, List, [], ◌∷◌, ◌++◌, leb,
  ◌==◌, length, drop, any, all, if◌then◌else◌,
}
use dinomem.Prelude.Text.{Text, codes, text_eq, strip, starts_with, strip_prefix, contains}
use dinomem.Route.Proposal.{Action, Proposal}

-- `str.lower`, the directories skills/<name>, and the files tools/<name>.
pub record Workspace : Type 0 where
  pub lower : Text → Text
  pub is_skill : Text → Bool
  pub is_tool : Text → Bool

-- `SURFACES`
pub data Surface : Type 0 where
  cron hook memory skill root : Surface

unfoldable pub surface_of : Text → Option Surface
surface_of s =
    if text_eq s (codes "cron")
    then some cron
    else if text_eq s (codes "hook")
    then some hook
    else if text_eq s (codes "memory")
    then some memory
    else if text_eq s (codes "skill")
    then some skill
    else if text_eq s (codes "root")
    then some root
    else none

-- `LEAF_TOOLS`; the surface of the memory has none
unfoldable pub leaf_tool : Surface → Option (Text × List Text)
leaf_tool cron = some (codes "cron_tool.py", codes "--confirmed" ∷ [])
leaf_tool hook = some (codes "hook_tool.py", codes "--confirmed" ∷ [])
leaf_tool skill = some (codes "skill_tool.py", codes "--confirmed" ∷ [])
leaf_tool root = some (codes "config_tool.py", [])
leaf_tool memory = none

-- What an approval would do; the command of a leaf writer is the tool and its arguments.
pub data Plan : Type 0 where
  memory_plan : Text → Text → Plan
  archive_plan : Text → Plan
  leaf_plan : Text → List Text → Plan

-- `os.path.basename`
unfoldable pub basename : Text → Text
basename [] = []
basename (c ∷ s) = let rest = basename s in if any (λ d. d == b'/') (c ∷ s) then rest else c ∷ s

abbrev is_alnum : ℕ → Bool
is_alnum c = leb b'A' c && leb c b'Z' || leb b'a' c && leb c b'z' || leb b'0' c && leb c b'9'

abbrev is_name_char : ℕ → Bool
is_name_char c = is_alnum c || c == b'.' || c == b'_' || c == b'-'

abbrev ends_md : Text → Bool
ends_md s = text_eq (drop (length s - 3) s) (codes ".md")

-- `[A-Za-z0-9][A-Za-z0-9._-]*\.md$`
unfoldable pub named_md : Option Text → Bool
named_md none = false
named_md (some []) = false
named_md (some (c ∷ s)) = is_alnum c && all is_name_char s && ends_md s

-- `_MEM_NAME_OK.match(base)`
unfoldable pub mem_name_ok : Text → Bool
mem_name_ok base =
    named_md (strip_prefix (codes "_pin_") base) || named_md (strip_prefix (codes "_note_") base)

abbrev pub is_empty : Text → Bool
is_empty [] = true
is_empty (c ∷ s) = false

-- the checks of a proposal for the memory
unfoldable pub memory_check : Action → Option Plan
memory_check a =
    let rel = strip a.path in
    if not (starts_with (codes "memory/") rel) || contains (codes "..") rel
    then none
    else if not (mem_name_ok (basename rel))
    then none
    else if is_empty (strip a.content)
    then none
    else some (memory_plan rel a.content)

-- the checks of a proposal to archive a skill
unfoldable pub archive_check : Workspace → Action → Option Plan
archive_check w a =
    let name = strip a.archive in
    if is_empty name
      || contains (codes "/") name
      || starts_with (codes ".") name
      || contains (codes "..") name
    then none
    else if w.is_skill name
    then some (archive_plan name)
    else none

abbrev pub forbidden_write_targets : List Text
forbidden_write_targets = codes "MEMORY.md" ∷ codes "USER.md" ∷ []

-- `x in argv`
abbrev pub holds : List Text → Text → Bool
holds argv x = any (text_eq x) argv

abbrev check_argv : Workspace → Option (Text × List Text) → Option (List Text) → Option Plan
check_argv w none argv = none
check_argv w (some tool) none = none
check_argv w (some (tool, flag)) (some argv) =
    if holds argv (codes "--confirmed")
    then none
    else if any (holds argv) forbidden_write_targets
    then none
    else if w.is_tool tool
    then some (leaf_plan tool (argv ++ flag))
    else none

-- the checks of a proposal for a leaf writer
unfoldable pub leaf_check : Workspace → Surface → Action → Option Plan
leaf_check w s a = check_argv w (leaf_tool s) a.argv

abbrev pub surface_check : Workspace → Action → Option Surface → Option Plan
surface_check w a none = none
surface_check w a (some memory) = memory_check a
surface_check w a (some skill) =
    if is_empty a.archive then leaf_check w skill a else archive_check w a
surface_check w a (some cron) = leaf_check w cron a
surface_check w a (some hook) = leaf_check w hook a
surface_check w a (some root) = leaf_check w root a

-- `_validate_action`: the plan, or none for a refusal
unfoldable pub validate_action : Workspace → Proposal → Option Plan
validate_action w d = surface_check w d.action (surface_of (w.lower (strip d.surface)))
