-- ===== src/Snapshot/Restored/Kept.antt =====
-- Three kinds of paths: the store of the undo history, the notes and the cache.
use dinomem.Prelude.{
  ◌≡◌, refl, ap, ◌∙◌, inl, inr, Bool, true, false, not, ◌&&◌, ◌||◌, Option, none, List, [], ◌∷◌,
  ◌++◌, ℕ, ◌==◌, any, map, arith, Bool-cases,
}
use dinomem.Prelude.Text.{Text, codes, text_eq, starts_with, strip_prefix, split, join, cons_first}
use dinomem.Prelude.Text.Split.{Lacks, split_of_Lacks}
use dinomem.Snapshot.{
  Tree, with_prefixes, is_skipped_part, skip, is_archived, included, over, create_snapshot,
  restore_all,
}
use dinomem.Snapshot.Restored.{when, restored_path}

abbrev pub undo_store : Text
undo_store = codes ".dinomem-snap.git"

abbrev pub undo_path : Text → Text
undo_path s = undo_store ++ (b'/' ∷ s)

abbrev pub cache_path : Text → Text
cache_path s = codes "memory/cache/" ++ s

abbrev pub note_path : Text → Text
note_path name = codes "memory/" ++ name

-- a name that is thrown away in every directory, or in memory/
abbrev pub is_waste : Text → Bool
is_waste name =
    text_eq name (codes "sessions")
    || (text_eq name (codes "logs")
        || (text_eq name (codes "__pycache__")
            || (text_eq name (codes ".backups")
                || (text_eq name (codes ".git") || text_eq name (codes "cache")))))

skip-undo_path : (s : Text) → skip (undo_path s) ≡ false
unfolding skip text_eq starts_with strip_prefix
skip-undo_path s = refl

cache_not_archived : (s : Text) → is_archived (cache_path s) ≡ false
unfolding is_archived skip is_skipped_part with_prefixes split cons_first join text_eq starts_with
    strip_prefix
cache_not_archived s = refl

skip-undo_parts : (xs : List Text) → skip (join (codes "/") (undo_store ∷ xs)) ≡ false
unfolding join
skip-undo_parts [] = unfold skip text_eq in refl
skip-undo_parts (x ∷ xs) = skip-undo_path (join (codes "/") (x ∷ xs))

ways_not_skipped :
    (before segs : List Text)
    → any skip (map (λ x. x.1) (with_prefixes (undo_store ∷ before) segs)) ≡ false
unfolding with_prefixes
ways_not_skipped before [] = refl
ways_not_skipped before (x ∷ segs) =
    rw (skip-undo_parts (before ++ (x ∷ [])), ways_not_skipped (before ++ (x ∷ [])) segs) refl

second_included :
    (rest : List Text) → any (λ item. any (text_eq item) (undo_store ∷ rest)) included ≡ true
unfolding text_eq
second_included rest = or_true (any (text_eq (codes "memory")) rest)
  where
    or_true : (b : Bool) → b || true ≡ true
    or_true true = refl
    or_true false = refl

store_and_below :
    (rest : List Text)
    → any skip rest ≡ false
    → (any (λ item. any (text_eq item) (undo_store ∷ rest)) included
        && not (any skip (undo_store ∷ rest)))
      ≡ true
store_and_below rest h = both (second_included rest) (no_way (skip undo_store) self h)
  where
    self : skip undo_store ≡ false
    self = unfold skip text_eq in refl

    no_way : (b : Bool) → b ≡ false → any skip rest ≡ false → not (b || any skip rest) ≡ true
    no_way b e k = ground (arith, e, k)

    both : {a b : Bool} → a ≡ true → b ≡ true → (a && b) ≡ true
    both p q = ground (arith)

undo_is_archived : (s : Text) → is_archived (undo_path s) ≡ true
unfolding is_archived with_prefixes split cons_first join
undo_is_archived s =
    store_and_below (map (λ x. x.1) (with_prefixes (undo_store ∷ []) (split b'/' s)))
      (ways_not_skipped [] (split b'/' s))

-- A name without a slash is no text with one, and starts with none.
strip_slash : (a name : Text) → Lacks b'/' name → strip_prefix (a ++ codes "/") name ≡ none
unfolding strip_prefix
strip_slash [] [] h = refl
strip_slash [] (c ∷ name) (h, hs) = rw (apart c h) refl
  where
    apart : (c : ℕ) → (c == b'/') ≡ false → (b'/' == c) ≡ false
    apart c h = ground (arith)
strip_slash (x ∷ a) [] h = refl
strip_slash (x ∷ a) (c ∷ name) (h, hs) = elim (Bool-cases (x == c)) [
  | inl e ↦ rw e (strip_slash a name hs)
  | inr n ↦ rw n refl
]

starts-strip_slash : (a name : Text) → Lacks b'/' name → starts_with (a ++ codes "/") name ≡ false
unfolding starts_with
starts-strip_slash a name h = rw (strip_slash a name h, starts_with) refl

text_eq-slash : (a b name : Text) → Lacks b'/' name → text_eq name (a ++ (b'/' ∷ b)) ≡ false
unfolding text_eq
text_eq-slash [] b [] h = refl
text_eq-slash (x ∷ a) b [] h = refl
text_eq-slash [] b (c ∷ name) (h, hs) = rw h refl
text_eq-slash (x ∷ a) b (c ∷ name) (h, hs) = rw (text_eq-slash a b name hs) (and_false (c == x))
  where
    and_false : (b : Bool) → (b && false) ≡ false
    and_false true = refl
    and_false false = refl

-- the tests of a whole path
abbrev meets : Text → Text → Bool
meets pat path = text_eq path pat || starts_with (pat ++ codes "/") path

-- A path in memory/ meets no pattern that starts with another letter.
other_patterns :
    (name : Text)
    → (meets (codes "kb/vector_db") (note_path name) ≡ false)
      × (meets (codes "kb/vector_db_docs") (note_path name) ≡ false)
      × (meets (codes "sessions") (note_path name) ≡ false)
      × (meets (codes "logs") (note_path name) ≡ false)
      × (meets (codes "__pycache__") (note_path name) ≡ false)
      × (meets (codes ".backups") (note_path name) ≡ false)
      × (meets (codes ".git") (note_path name) ≡ false)
unfolding text_eq starts_with strip_prefix
other_patterns name = (refl, refl, refl, refl, refl, refl, refl)

cache_pattern :
    (name : Text) → meets (codes "memory/cache") (note_path name) ≡ meets (codes "cache") name
unfolding text_eq starts_with strip_prefix
cache_pattern name = refl

-- the tests of the last part of a note's path
note_not_skipped :
    (name : Text)
    → Lacks b'/' name
    → is_waste name ≡ false
    → is_skipped_part (name, note_path name) ≡ false
unfolding is_skipped_part
note_not_skipped name h w =
    let (a, b, c, d, e, f, g) = other_patterns name in
    rw
      (
        text_eq-slash (codes "kb") (codes "vector_db") name h,
        a,
        text_eq-slash (codes "kb") (codes "vector_db_docs") name h,
        b,
        c,
        d,
        e,
        f,
        g,
        text_eq-slash (codes "memory") (codes "cache") name h,
        cache_pattern name,
        starts-strip_slash (codes "cache") name h,
      )
      (by_names (text_eq name (codes "sessions")) (text_eq name (codes "logs"))
        (text_eq name (codes "__pycache__")) (text_eq name (codes ".backups"))
        (text_eq name (codes ".git")) (text_eq name (codes "cache")) w)
  where
    by_names :
        (a b c d e f : Bool)
        → (a || (b || (c || (d || (e || f))))) ≡ false
        → (a
            || false
            || (b
                || false
                || (c || false || (d || false || (e || false || (f || false || false))))))
          ≡ false
    by_names a b c d e f k = ground (arith, k)

note_parts :
    (name : Text) → Lacks b'/' name → split b'/' (note_path name) ≡ codes "memory" ∷ name ∷ []
note_parts name h =
    memory_first (split b'/' name) ∙ ap (λ r. codes "memory" ∷ r) (split_of_Lacks b'/' name h)
  where
    memory_first : (r : List Text) → split b'/' (note_path name) ≡ codes "memory" ∷ split b'/' name
    memory_first r = unfold split cons_first in refl

top_not_skipped : is_skipped_part (codes "memory", codes "memory") ≡ false
unfolding is_skipped_part text_eq starts_with strip_prefix
top_not_skipped = refl

skip-note_path :
    (name : Text) → Lacks b'/' name → is_waste name ≡ false → skip (note_path name) ≡ false
unfolding skip text_eq with_prefixes join starts_with strip_prefix
skip-note_path name h w =
    rw (note_parts name h) (rw (top_not_skipped, note_not_skipped name h w) refl)

skip_memory : skip (codes "memory") ≡ false
unfolding skip is_skipped_part text_eq with_prefixes split cons_first join starts_with strip_prefix
skip_memory = refl

note-is_archived :
    (name : Text) → Lacks b'/' name → is_waste name ≡ false → is_archived (note_path name) ≡ true
unfolding is_archived with_prefixes join text_eq
note-is_archived name h w = rw (note_parts name h) (rw (skip_memory, skip-note_path name h w) refl)

-- A restore gives a path below .dinomem-snap.git, its logs too, and a file directly in memory/ what they had at the time
-- of the snapshot, if they were listed then, and leaves them if they were not there; the file's name is none of
-- sessions, logs, __pycache__, .backups, .git and cache. A path below memory/cache is left as it is, listed or not.
pub restore_all-create_snapshot :
    (tree later : Tree) (paths : List Text) (config later_config : Option Text) (s name : Text)
    → any (text_eq (undo_path s)) paths ≡ true
    → any (text_eq (note_path name)) paths ≡ true
    → Lacks b'/' name
    → is_waste name ≡ false
    → let r = (restore_all (create_snapshot tree paths config) later later_config).0 in
      (r (undo_path s) ≡ over (tree (undo_path s)) (later (undo_path s)))
      × (r (note_path name) ≡ over (tree (note_path name)) (later (note_path name)))
      × (r (cache_path s) ≡ later (cache_path s))
unfolding text_eq
restore_all-create_snapshot tree later paths config later_config s name u n h w = (
  kept (undo_path s) refl u (undo_is_archived s),
  kept (note_path name) refl n (note-is_archived name h w),
  left (cache_path s) refl (cache_not_archived s),
)
  where
    kept :
        (p : Text)
        → text_eq p (codes "openclaw.json") ≡ false
        → any (text_eq p) paths ≡ true
        → is_archived p ≡ true
        → (restore_all (create_snapshot tree paths config) later later_config).0 p
          ≡ over (tree p) (later p)
    kept p c i a =
        restored_path tree later paths config later_config p c
        ∙ ap (λ b. over (when b (tree p)) (later p)) (both i a)
      where
        both : {a b : Bool} → a ≡ true → b ≡ true → (a && b) ≡ true
        both p q = ground (arith)

    left :
        (p : Text)
        → text_eq p (codes "openclaw.json") ≡ false
        → is_archived p ≡ false
        → (restore_all (create_snapshot tree paths config) later later_config).0 p ≡ later p
    left p c a =
        restored_path tree later paths config later_config p c
        ∙ ap (λ b. over (when b (tree p)) (later p)) (none_of (any (text_eq p) paths) a)
      where
        none_of : (b : Bool) {a : Bool} → a ≡ false → (b && a) ≡ false
        none_of b q = ground (arith)
