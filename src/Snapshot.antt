-- ===== src/Snapshot.antt =====
-- Snapshots of the workspace: what procedures/workspace_backup.py puts into one, which one is picked, and what a
-- restore writes. A file is a path with `/` between its parts; a tree says what each file has. Writing an
-- archive and reading it back give the members that were added.
pub mod Restored
mod Tests
use dinomem.Prelude.{
  ℕ, suc, ◌+◌, ◌-◌, Bool, true, false, not, ◌&&◌, ◌||◌, Option, none, some, List, [], ◌∷◌, ◌++◌,
  any, map, if◌then◌else◌,
}
use dinomem.Prelude.Text.{Text, codes, text_eq, starts_with, contains, split, join}

abbrev pub Tree : Type 0
Tree = Text → Option Text

-- The members of an archive.
abbrev pub Entries : Type 0
Entries = List (Text × Text)

abbrev pub skip_patterns : List Text
skip_patterns =
    codes "kb/vector_db"
    ∷ codes "kb/vector_db_docs"
    ∷ codes "sessions"
    ∷ codes "logs"
    ∷ codes "__pycache__"
    ∷ codes ".backups"
    ∷ codes ".git"
    ∷ codes "memory/cache"
    ∷ []

abbrev pub protected : Text
protected = codes ".dinomem-snap.git"

-- the parts with the path up to each of them
unfoldable pub with_prefixes : List Text → List Text → List (Text × Text)
with_prefixes before [] = []
with_prefixes before (seg ∷ segs) =
    (seg, join (codes "/") (before ++ (seg ∷ []))) ∷ with_prefixes (before ++ (seg ∷ [])) segs

unfoldable pub is_skipped_part : Text × Text → Bool
is_skipped_part (seg, prefix) =
    any (λ pat. text_eq seg pat || (text_eq prefix pat || starts_with (pat ++ codes "/") prefix))
      skip_patterns

-- `_skip`
unfoldable pub skip : Text → Bool
skip rel =
    if text_eq rel [] || text_eq rel (codes ".")
    then false
    else if text_eq rel protected || starts_with (protected ++ codes "/") rel
    then false
    else any is_skipped_part (with_prefixes [] (split b'/' rel))

-- `INCLUDE`, and the exports
abbrev pub included : List Text
included =
    codes "memory"
    ∷ codes ".dinomem-snap.git"
    ∷ codes "MEMORY.md"
    ∷ codes "AGENTS.md"
    ∷ codes "SOUL.md"
    ∷ codes "IDENTITY.md"
    ∷ codes "TOOLS.md"
    ∷ codes "USER.md"
    ∷ codes "HEARTBEAT.md"
    ∷ codes "topics"
    ∷ codes "docs"
    ∷ codes "exports"
    ∷ []

-- The walk below an included path comes to the file: no directory on the way, nor the file, is filtered out.
unfoldable pub is_archived : Text → Bool
is_archived path =
    let ways = map (λ x. x.1) (with_prefixes [] (split b'/' path)) in
    any (λ item. any (text_eq item) ways) included && not (any skip ways)

abbrev pub add_entry : Bool → Text → Option Text → Entries → Entries
add_entry true path (some content) rest = (path, content) ∷ rest
add_entry true path none rest = rest
add_entry false path _ rest = rest

-- the files of the workspace among the paths
unfoldable pub archived : Tree → List Text → Entries
archived tree [] = []
archived tree (path ∷ paths) = add_entry (is_archived path) path (tree path) (archived tree paths)

abbrev pub config_name : Text
config_name = codes "openclaw.json"

abbrev pub config_entry : Option Text → Entries
config_entry none = []
config_entry (some content) = (config_name, content) ∷ []

-- `create_snapshot`: the members, of the workspace's files and of openclaw.json beside it
unfoldable pub create_snapshot : Tree → List Text → Option Text → Entries
create_snapshot tree paths config = archived tree paths ++ config_entry config

abbrev pub put : Text → Text → Tree → Tree
put path content tree p = if text_eq p path then some content else tree p

-- `extractall`
unfoldable pub extract_all : Entries → Tree → Tree
extract_all [] tree = tree
extract_all ((path, content) ∷ es) tree = extract_all es (put path content tree)

abbrev pub over : Option Text → Option Text → Option Text
over (some content) old = some content
over none old = old

-- `getmember`, which takes the last of a name
unfoldable pub member : Text → Entries → Option Text
member p [] = none
member p ((path, content) ∷ es) = over (member p es) (if text_eq p path then some content else none)

-- `restore_all`: the files of the workspace and openclaw.json beside it
unfoldable pub restore_all : Entries → Tree → Option Text → Tree × Option Text
restore_all es tree config = (extract_all es tree, over (member config_name es) config)

unfoldable pub first_containing : Text → List Text → Option Text
first_containing target [] = none
first_containing target (name ∷ names) =
    if contains target name then some name else first_containing target names

-- `_pick_snapshot` and `_pick_cron_backup`, on the names from the newest on; `none` stands for the exit. The
-- item at an index, which is from the end on if it is negative, is a parameter, as is `int`.
unfoldable pub pick : (Text → List Text → Option Text) → Text → List Text → Option Text
pick at_index target [] = none
pick at_index target (newest ∷ names) =
    if text_eq target [] || text_eq target (codes "latest")
    then some newest
    else over (first_containing target (newest ∷ names)) (at_index target (newest ∷ names))
