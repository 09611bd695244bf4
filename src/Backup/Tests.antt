-- ===== src/Backup/Tests.antt =====
-- Backups of `a`, of `b`, and of names of which one begins the other.
use dinomem.Prelude.{◌≡◌, refl, Bool, true, false, some, [], ◌∷◌, map}
use dinomem.Prelude.Text.{Text, codes, text_eq, strip_prefix}
use dinomem.Backup.{
  Dir, copy_name, ends_bak, is_copy, insert_name, sort_names, found, remove, unlink_all, old_ones,
  prune, copied, lookup, backup_file, text_lt, workspace_above,
}
use dinomem.Backup.Newest.{IsNewest, backup_file-newest}

abbrev anything : Text → Bool
anything n = true

abbrev copies : Dir
copies =
    (copy_name (codes "a") (codes "1"), codes "old")
    ∷ (copy_name (codes "b") (codes "1"), codes "other")
    ∷ []

copies-IsNewest : IsNewest (codes "a") (copy_name (codes "a") (codes "2")) copies
unfolding is_copy strip_prefix copy_name ends_bak text_eq text_lt
copies-IsNewest = ((λ c n. refl), ((λ c n. cc), tt))

backup_file-newest_example :
    let r = backup_file anything true (codes "2") (codes "a") (some (codes "new")) copies in
    (r.0 ≡ some (copy_name (codes "a") (codes "2")))
    × (lookup (copy_name (codes "a") (codes "2")) r.1 ≡ some (codes "new"))
backup_file-newest_example =
    backup_file-newest anything (codes "2") (codes "a") (codes "new") copies copies-IsNewest

-- Ten backups of `a.b` are found for `a` and come behind: the copy of `a` is removed at once.
abbrev ten_of_longer : Dir
ten_of_longer =
    map (λ s. (copy_name (codes "a.b") s, codes "kept"))
      (codes "0"
        ∷ codes "1"
        ∷ codes "2"
        ∷ codes "3"
        ∷ codes "4"
        ∷ codes "5"
        ∷ codes "6"
        ∷ codes "7"
        ∷ codes "8"
        ∷ codes "9"
        ∷ [])

answered_and_gone :
    backup_file anything true (codes "2") (codes "a") (some (codes "new")) ten_of_longer
    ≡ (some (codes "a.2.bak"), ten_of_longer)
unfolding backup_file prune unlink_all old_ones sort_names insert_name found remove copied copy_name
    is_copy ends_bak text_eq text_lt strip_prefix
answered_and_gone = refl

-- The nearest directory with a mark is the workspace, and the file's own one if there is none.
nearest_marked :
    workspace_above
      (λ p. text_eq p (codes "/a"))
      (λ p. false)
      (codes "/a/b/c")
      (codes "/a/b/c" ∷ codes "/a/b" ∷ codes "/a" ∷ codes "/" ∷ [])
    ≡ codes "/a"
unfolding workspace_above text_eq
nearest_marked = refl

none_marked :
    workspace_above (λ p. false) (λ p. false) (codes "/a/b/c") (codes "/a/b/c" ∷ codes "/a/b" ∷ [])
    ≡ codes "/a/b/c"
unfolding workspace_above
none_marked = refl
