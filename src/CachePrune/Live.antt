-- ===== src/CachePrune/Live.antt =====
-- What pruning keeps and removes.
use dinomem.Prelude.{
  ℕ, ◌+◌, ◌≡◌, refl, ap, sym, ◌∙◌, Bool, true, false, not, none, some, List, [], ◌∷◌, length, any,
  filter, count, arith, length-filter, filter-filter_of_imp,
}
use dinomem.Prelude.Text.{Text, text_eq_iff}
use dinomem.CachePrune.{Hash, hash_eq, is_orphan, prune_tables, done}

module _ {ℓ} {A : Type ℓ} (p : A → Bool) where
  count-split : (xs : List A) → length (filter (λ x. not (p x)) xs) + count p xs ≡ length xs
  count-split [] = refl
  count-split (x ∷ xs) = ground (arith, count-split xs)

  keep_all : (xs : List A) → count p xs ≡ 0 → filter (λ x. not (p x)) xs ≡ xs
  keep_all [] h = refl
  keep_all (x ∷ xs) h = ground (arith, keep_all xs)

-- A real run that ends well leaves exactly the rows that are no orphans, in order, and its counts add up.
pub prune_tables_lem :
    (force fails : Bool) (cache chunks : List Hash)
    → (prune_tables false force fails cache chunks).0.status ≡ done
    → let (s, left) = prune_tables false force fails cache chunks in
      (left ≡ filter (λ h. not (is_orphan chunks h)) cache)
      × (s.after ≡ length left)
      × (s.after + s.orphans ≡ s.before)
unfolding prune_tables
prune_tables_lem force fails cache chunks h =
    ground (arith, keep_all (is_orphan chunks) cache, count-split (is_orphan chunks) cache)

-- Where the real run ends well, the dry run changes no row and foretells its counts.
pub prune_tables_dry_run :
    (force fails : Bool) (cache chunks : List Hash)
    → (prune_tables false force fails cache chunks).0.status ≡ done
    → ((prune_tables true force fails cache chunks).1 ≡ cache)
      × ((prune_tables true force fails cache chunks).0.orphans
          ≡ (prune_tables false force fails cache chunks).0.orphans)
      × ((prune_tables true force fails cache chunks).0.after
          ≡ (prune_tables false force fails cache chunks).0.after)
unfolding prune_tables
prune_tables_dry_run force fails cache chunks h =
    ground (arith, count-split (is_orphan chunks) cache)

-- the rows of one text
abbrev pub rows_of : Text → List Hash → ℕ
rows_of h rows = count (hash_eq h) rows

live_no_orphan :
    (chunks : List Hash) (h : Text) (k : Hash)
    → any (hash_eq h) chunks ≡ true
    → hash_eq h k ≡ true
    → is_orphan chunks k ≡ false
unfolding hash_eq is_orphan
live_no_orphan [] h k e f = absurd (cc e)
live_no_orphan (c ∷ chunks) h none e f = refl
live_no_orphan (c ∷ chunks) h (some x) e f =
    let same : h ≡ x = (text_eq_iff h x).0 f in
    let live : any (hash_eq x) (c ∷ chunks) ≡ true =
      ap (λ y. any (hash_eq y) (c ∷ chunks)) (sym same) ∙ e in
    ground (arith, live)

live_rows :
    (h : Text) (cache chunks : List Hash)
    → any (hash_eq h) chunks ≡ true
    → rows_of h (filter (λ k. not (is_orphan chunks k)) cache) ≡ rows_of h cache
live_rows h cache chunks e =
    sym (length-filter (hash_eq h) (filter (λ k. not (is_orphan chunks k)) cache))
    ∙ (ap length (
          filter-filter_of_imp (hash_eq h) (λ k. not (is_orphan chunks k))
            (λ k f. ap not (live_no_orphan chunks h k e f)) cache)
        ∙ length-filter (hash_eq h) cache)

-- No run in any mode removes a row whose hash is still in the index.
pub prune_tables_keeps_live :
    (dry_run force fails : Bool) (cache chunks : List Hash) (h : Text)
    → any (hash_eq h) chunks ≡ true
    → rows_of h (prune_tables dry_run force fails cache chunks).1 ≡ rows_of h cache
unfolding prune_tables
prune_tables_keeps_live dry_run force fails cache chunks h e =
    let rows = live_rows h cache chunks e in ground (arith, rows)
