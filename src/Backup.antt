-- ===== src/Backup.antt =====
-- The copy that is made before a file is changed or deleted: procedures/_file_backup.py, on the directory of the
-- copies. The glob's pattern is read for names without the special characters of a pattern.
pub mod Newest
pub mod Others
mod Tests
use dinomem.Prelude.{
  ℕ, ◌-◌, ◌==◌, Bool, true, false, not, ◌&&◌, ◌||◌, Option, none, some, List, [], ◌∷◌, ◌++◌, any,
  filter, map, length, take, ltb, if◌then◌else◌,
}
use dinomem.Prelude.Text.{Text, codes, text_eq, strip_prefix}

-- A directory: names and contents, in no order that matters.
abbrev pub Dir : Type 0
Dir = List (Text × Text)

-- `_workspace_for`, on the directories above the file, the nearest first, behind the nearest
unfoldable pub workspace_above : (Text → Bool) → (Text → Bool) → Text → List Text → Text
workspace_above has_procedures has_agents parent [] = parent
workspace_above has_procedures has_agents parent (p ∷ ps) =
    let rest = workspace_above has_procedures has_agents parent ps in
    if has_procedures p || has_agents p then p else rest

abbrev pub workspace_for : (Text → Bool) → (Text → Bool) → Text → List Text → Text
workspace_for has_procedures has_agents parent ps =
    workspace_above has_procedures has_agents parent (parent ∷ ps)

abbrev pub bak : Text
bak = codes ".bak"

unfoldable pub copy_name : Text → Text → Text
copy_name stem stamp = stem ++ (codes "." ++ (stamp ++ bak))

-- what the star of the pattern leaves
unfoldable pub ends_bak : Text → Bool
ends_bak [] = false
ends_bak (c ∷ s) = text_eq (c ∷ s) bak || ends_bak s

abbrev behind_dot : Option Text → Bool
behind_dot none = false
behind_dot (some rest) = ends_bak rest

-- `glob(f"{stem}.*.bak")` finds the name
unfoldable pub is_copy : Text → Text → Bool
is_copy stem name = behind_dot (strip_prefix (stem ++ codes ".") name)

-- The order of the names is by code points.
unfoldable pub text_lt : Text → Text → Bool
text_lt s [] = false
text_lt [] (d ∷ t) = true
text_lt (c ∷ s) (d ∷ t) = let rest = text_lt s t in ltb c d || (c == d && rest)

unfoldable pub insert_name : Text → List Text → List Text
insert_name x [] = x ∷ []
insert_name x (y ∷ l) = let rest = insert_name x l in if text_lt y x then y ∷ rest else x ∷ y ∷ l

unfoldable pub sort_names : List Text → List Text
sort_names [] = []
sort_names (x ∷ l) = insert_name x (sort_names l)

unfoldable pub found : Text → Dir → List Text
found stem [] = []
found stem ((name, content) ∷ dir) =
    let rest = found stem dir in if is_copy stem name then name ∷ rest else rest

unfoldable pub remove : Text → Dir → Dir
remove name [] = []
remove name ((n, content) ∷ dir) =
    let rest = remove name dir in if text_eq n name then rest else (n, content) ∷ rest

-- A name that cannot be unlinked stays.
unfoldable pub unlink_all : (Text → Bool) → List Text → Dir → Dir
unlink_all can_unlink [] dir = dir
unlink_all can_unlink (n ∷ ns) dir =
    unlink_all can_unlink ns (if can_unlink n then remove n dir else dir)

-- `copies[:-KEEP_PER_FILE]`
unfoldable pub old_ones : List Text → List Text
old_ones copies = take (length copies - 10) copies

-- `_prune`
unfoldable pub prune : (Text → Bool) → Text → Dir → Dir
prune can_unlink stem dir = unlink_all can_unlink (old_ones (sort_names (found stem dir))) dir

-- `shutil.copy2`, which writes over a file of the name
unfoldable pub copied : Text → Text → Dir → Dir
copied name content dir = remove name dir ++ ((name, content) ∷ [])

unfoldable pub lookup : Text → Dir → Option Text
lookup name [] = none
lookup name ((n, content) ∷ dir) =
    let rest = lookup name dir in if text_eq n name then some content else rest

-- `backup_file`: the name of the copy, if it is said to be made, and the directory; the flag is whether the
-- directory can be made and the file be copied, the text what the file has if there is one
unfoldable pub backup_file :
    (Text → Bool) → Bool → Text → Text → Option Text → Dir → Option Text × Dir
backup_file can_unlink can_copy stamp stem none dir = (none, dir)
backup_file can_unlink can_copy stamp stem (some content) dir =
    if can_copy
    then (
      some (copy_name stem stamp),
      prune can_unlink stem (copied (copy_name stem stamp) content dir),
    )
    else (none, dir)
