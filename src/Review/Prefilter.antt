-- ===== src/Review/Prefilter.antt =====
-- The embedding pre-filter of procedures/memory_review.py. The embedding server answers a request
-- that is its content and the number of the attempt; two vectors are similar by a test, the
-- comparison of `cosine` with the threshold, which is computed in floats.
pub mod Partition
use dinomem.Prelude.{
  ℕ, zero, suc, ◌+◌, Bool, true, false, ◌&&◌, ◌||◌, not, Option, none, some, List, [], ◌∷◌, ◌++◌,
  map, ◌==◌, if◌then◌else◌, length, take, drop, any,
}
use dinomem.Prelude.Text.{Text, codes, strip}

abbrev pub embed_batch : ℕ
embed_batch = 8

-- A file of the batch: its path, and its text if it can be read.
pub record Source : Type 0 where
  pub path : Text
  pub text : Option Text

pub record Embedder (V : Type 0) : Type 0 where
  pub request : ℕ → List Text → Option (List V)
  pub similar : V → V → Bool
  pub retries : ℕ
  pub with_prefix : Bool

module _ {V : Type 0} where
  -- one batch: `retries` more attempts after a failure
  unfoldable pub attempt : Embedder V → List Text → ℕ → ℕ → Option (List V)
  attempt e chunk number zero = e.request number chunk
  attempt e chunk number (suc left) =
      let again = attempt e chunk (suc number) left in
      elim (e.request number chunk) [ some vs ↦ some vs | none ↦ again ]

  unfoldable pub prefixed : Embedder V → List Text → List Text
  prefixed e chunk = if e.with_prefix then map (λ t. codes "query: " ++ t) chunk else chunk

  abbrev append_all : Option (List V) → Option (List V) → Option (List V)
  append_all (some vs) (some ws) = some (vs ++ ws)
  append_all _ _ = none

  -- The loop over `range(0, len(texts), EMBED_BATCH)`; the fuel is at least the number of batches.
  unfoldable pub embed_texts : ℕ → Embedder V → List Text → Option (List V)
  unfolding attempt prefixed
  embed_texts fuel e [] = some []
  embed_texts zero e (t ∷ texts) = none
  embed_texts (suc fuel) e (t ∷ texts) =
      append_all (attempt e (prefixed e (take embed_batch (t ∷ texts))) 0 e.retries)
        (embed_texts fuel e (drop embed_batch (t ∷ texts)))

-- the files that can be read and are not blank, with the first 1000 characters
unfoldable pub readable : List Source → List (Text × Text)
readable [] = []
readable (f ∷ files) =
    let rest = readable files in
    elim f.text [
      | none ↦ rest
      | some t ↦ elim (strip t) [ [] ↦ rest | c ∷ s ↦ (f.path, take 1000 (c ∷ s)) ∷ rest ]
    ]

abbrev pub firsts : {A B : Type 0} → List (A × B) → List A
firsts [] = []
firsts ((a, b) ∷ l) = a ∷ firsts l

abbrev pub seconds : {A B : Type 0} → List (A × B) → List B
seconds [] = []
seconds ((a, b) ∷ l) = b ∷ seconds l

abbrev pub zip : {A B : Type 0} → List A → List B → List (A × B)
zip (a ∷ xs) (b ∷ ys) = (a, b) ∷ zip xs ys
zip _ _ = []

abbrev pub or_each : List Bool → List Bool → List Bool
or_each (a ∷ xs) (b ∷ ys) = (a || b) ∷ or_each xs ys
or_each _ ys = ys

-- the paths whose flag is `true`, and the others
abbrev pub flagged : List Text → List Bool → List Text
flagged (p ∷ paths) (b ∷ flags) = let rest = flagged paths flags in if b then p ∷ rest else rest
flagged _ _ = []

abbrev pub unflagged : List Text → List Bool → List Text
unflagged (p ∷ paths) (b ∷ flags) = let rest = unflagged paths flags in if b then rest else p ∷ rest
unflagged _ _ = []

module _ {V : Type 0} where
  abbrev same_count : List (Text × Text) → Option (List V) → Option (List (Text × V))
  same_count valid_paths none = none
  same_count valid_paths (some vectors) =
      if length vectors == length valid_paths then some (zip (firsts valid_paths) vectors) else none

  -- `get_embeddings_for_files`; paths are distinct, so the dictionary is a list of pairs
  unfoldable pub get_embeddings_for_files : Embedder V → List Source → Option (List (Text × V))
  get_embeddings_for_files e files =
      let valid_paths = readable files in
      same_count valid_paths (embed_texts (length valid_paths) e (seconds valid_paths))

  -- `has_neighbor` after the two loops: `i` against each `j` behind it, which marks both
  unfoldable pub has_neighbor : (V → V → Bool) → List V → List Bool
  has_neighbor similar [] = []
  has_neighbor similar (v ∷ vs) =
      any (similar v) vs ∷ or_each (map (similar v) vs) (has_neighbor similar vs)

  unfoldable pub split_up :
      (V → V → Bool) → List Text → Option (List (Text × V)) → List Text × List Text
  split_up similar filepaths none = (filepaths, [])
  split_up similar filepaths (some embeddings) =
      let flags = has_neighbor similar (seconds embeddings) in
      (flagged (firsts embeddings) flags, unflagged (firsts embeddings) flags)

  -- `prefilter_batch`: the priority files and the isolated ones
  unfoldable pub prefilter_batch : Embedder V → List Source → List Text × List Text
  prefilter_batch e files =
      split_up e.similar (map (λ f. f.path) files) (get_embeddings_for_files e files)
