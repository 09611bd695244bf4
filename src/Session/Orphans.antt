-- ===== src/Session/Orphans.antt =====
-- The transcripts that no session tracks: `get_orphaned_files`, `archive_orphaned_file` and
-- `cleanup_orphaned_files` of procedures/session_reset.py. Ages are in seconds.
pub mod Spared
use dinomem.Prelude.{
  ℕ, suc, ◌+◌, ◌*◌, Bool, true, false, ◌||◌, Option, none, some, List, [], ◌∷◌, ◌++◌, leb, any,
  if◌then◌else◌,
}
use dinomem.Prelude.Text.{Text, codes, text_eq, contains}
use dinomem.Session.Clean.{Entry, cleanup_jsonl_content, written}
use dinomem.Session.Chain.{Files, read_file}
use dinomem.Session.Archive.{slash, name_of, stem_of, Place, unlink, write_file}

-- ORPHAN_MAX_AGE_HOURS, in seconds
abbrev pub orphan_max_age : ℕ
orphan_max_age = 48 * 3600

-- the names that the search passes over
unfoldable pub is_marked : Text → Bool
is_marked name =
    contains (codes ".archived.") name
    || contains (codes ".checkpoint.") name
    || contains (codes ".reset.") name

abbrev add_aged : Text → Option ℕ → List (Text × ℕ) → List (Text × ℕ)
add_aged path none rest = rest
add_aged path (some age) rest = (path, age) ∷ rest

-- `get_orphaned_files`, from the paths that the glob lists; a file whose `stat` raises has no age
unfoldable pub get_orphaned_files : List Text → (Text → Option ℕ) → List Text → List (Text × ℕ)
get_orphaned_files tracked age [] = []
get_orphaned_files tracked age (path ∷ listed) =
    let rest = get_orphaned_files tracked age listed in
    if is_marked (name_of path)
    then rest
    else if any (text_eq path) tracked
    then rest
    else add_aged path (age path) rest

pub data OrphanInfo : Type 0 where
  orphan orphan_deleted : OrphanInfo

unfoldable pub orphan_path : Place → Text → Text
orphan_path w path =
    w.dir
    ++ (slash
        ∷ (stem_of (name_of path)
            ++ (codes ".archived." ++ (codes "orphan." ++ (w.timestamp ++ codes ".jsonl")))))

-- what follows the cleaning
unfoldable pub archive_cleaned : Place → Text → List Entry → Files → Option OrphanInfo × Files
archive_cleaned w path [] files = (some orphan_deleted, unlink path files)
archive_cleaned w path (e ∷ es) files =
    if w.write_fails (orphan_path w path)
    then (none, files)
    else (some orphan, unlink path (write_file (orphan_path w path) (written (e ∷ es)) files))

-- `archive_orphaned_file`: its info, none without success
unfoldable pub archive_orphaned_file : Place → Text → Files → Option OrphanInfo × Files
archive_orphaned_file w path files = elim (read_file path files) [
  | none ↦ (none, files)
  | some lines ↦ archive_cleaned w path (cleanup_jsonl_content lines).0 files
]

abbrev pub add_info : Option OrphanInfo → ℕ × List OrphanInfo → ℕ × List OrphanInfo
add_info none (n, infos) = (n, infos)
add_info (some i) (n, infos) = (suc n, infos ++ i ∷ [])

-- one round of the loop
unfoldable pub visit_orphan : Place → Text → ℕ → Files → Option OrphanInfo × Files
visit_orphan w path age files =
    if leb orphan_max_age age then archive_orphaned_file w path files else (none, files)

unfoldable pub archive_orphans :
    Place → ℕ × List OrphanInfo → List (Text × ℕ) → Files → (ℕ × List OrphanInfo) × Files
archive_orphans w t [] files = (t, files)
archive_orphans w t ((path, age) ∷ orphaned) files =
    let (info, after) = visit_orphan w path age files in
    archive_orphans w (add_info info t) orphaned after

-- `cleanup_orphaned_files`: the count, the infos, and the transcripts afterwards
unfoldable pub cleanup_orphaned_files :
    Place → List Text → (Text → Option ℕ) → List Text → Files → (ℕ × List OrphanInfo) × Files
cleanup_orphaned_files w tracked age listed files =
    archive_orphans w (0, []) (get_orphaned_files tracked age listed) files
