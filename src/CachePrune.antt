-- ===== src/CachePrune.antt =====
-- procedures/memory_cache_prune.py: the embedding cache rows that no chunk refers to.
pub mod Live
mod Tests
use dinomem.Prelude.{
  ℕ, suc, ◌+◌, ◌-◌, Bool, true, false, ◌&&◌, ◌||◌, not, Option, none, some, List, [], ◌∷◌, ◌==◌,
  if◌then◌else◌, length, any, filter, count,
}
use dinomem.Prelude.Text.{Text, text_eq}

-- A `hash` column's value: NULL, or a text.
abbrev pub Hash : Type 0
Hash = Option Text

abbrev is_null : Hash → Bool
is_null none = true
is_null (some h) = false

unfoldable pub hash_eq : Text → Hash → Bool
hash_eq h none = false
hash_eq h (some k) = text_eq h k

-- `hash NOT IN (SELECT hash FROM memory_index_chunks)` holds: always over no rows, and never where the
-- comparison meets a NULL.
unfoldable pub is_orphan : List Hash → Hash → Bool
is_orphan [] h = true
is_orphan (c ∷ chunks) none = false
is_orphan (c ∷ chunks) (some h) =
    not (any is_null (c ∷ chunks)) && not (any (hash_eq h) (c ∷ chunks))

-- The two tables; a table that is missing is `none`.
pub record Database : Type 0 where
  pub cache : Option (List Hash)
  pub chunks : Option (List Hash)

pub data Status : Type 0 where
  done missing no_cache_table skipped_empty_index dry_run_only failed : Status

pub record Summary : Type 0 where
  pub status : Status
  pub before : ℕ
  pub orphans : ℕ
  pub after : ℕ

abbrev summary : Status → ℕ → ℕ → ℕ → Summary
summary s b o a = record { status = s; before = b; orphans = o; after = a }

unfoldable pub is_empty_index : List Hash → Bool
is_empty_index [] = true
is_empty_index (c ∷ chunks) = false

-- The body of the `try`, where both tables are there; `fails` is a database error at the DELETE, which
-- is rolled back. VACUUM changes no row.
unfoldable pub prune_tables : Bool → Bool → Bool → List Hash → List Hash → Summary × List Hash
prune_tables dry_run force fails cache chunks =
    let before = length cache in
    let orphans = count (is_orphan chunks) cache in
    if is_empty_index chunks && not force
    then (summary skipped_empty_index before 0 0, cache)
    else if dry_run
    then (summary dry_run_only before orphans (before - orphans), cache)
    else if orphans == 0
    then (summary done before 0 before, cache)
    else if fails
    then (summary failed before orphans 0, cache)
    else (let left = filter (λ h. not (is_orphan chunks h)) cache in
        (summary done before orphans (length left), left))

-- `prune_db`; no database is a path that does not exist
unfoldable pub prune_db : Bool → Bool → Bool → Option Database → Summary × Option Database
prune_db dry_run force fails none = (summary missing 0 0 0, none)
prune_db dry_run force fails (some db) = elim db.cache [
  | none ↦ (summary no_cache_table 0 0 0, some db)
  | some cache ↦ elim db.chunks [
    | none ↦ (summary no_cache_table 0 0 0, some db)
    | some chunks ↦
        let (s, left) = prune_tables dry_run force fails cache chunks in
        (s, some (record db { cache = some left }))
  ]
]
