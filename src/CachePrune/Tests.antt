-- ===== src/CachePrune/Tests.antt =====
-- Runs on small tables.
use dinomem.Prelude.{◌≡◌, refl, true, false, none, some, List, [], ◌∷◌, any}
use dinomem.Prelude.Text.{codes, text_eq}
use dinomem.CachePrune.{Hash, hash_eq, is_orphan, done, prune_tables, is_empty_index}

abbrev cache_rows : List Hash
cache_rows = some (codes "aa") ∷ some (codes "bb") ∷ none ∷ some (codes "aa") ∷ []

abbrev index_rows : List Hash
index_rows = some (codes "aa") ∷ some (codes "cc") ∷ []

ends_well : (prune_tables false false false cache_rows index_rows).0.status ≡ done
unfolding prune_tables is_empty_index is_orphan hash_eq text_eq
ends_well = refl

aa_is_live : any (hash_eq (codes "aa")) index_rows ≡ true
unfolding hash_eq text_eq
aa_is_live = refl
