-- ===== src/Review/Prefilter/Partition.antt =====
-- The two lists of the pre-filter, and the fuel of the embedding loop.
use dinomem.Prelude.{
  ℕ, zero, suc, ◌+◌, ◌≤◌, ◌≡◌, refl, ap, sym, ◌∙◌, inl, inr, Bool, Option, none, some, List, [],
  ◌∷◌, map, ◌==◌, arith, length, drop, count, length-drop, Bool-cases,
}
use dinomem.Prelude.Text.{Text}
use dinomem.Review.Prefilter.{
  Source, Embedder, embed_texts, embed_batch, readable, firsts, seconds, zip,
  get_embeddings_for_files, or_each, flagged, same_count, unflagged, has_neighbor, split_up,
  prefilter_batch,
}

module _ {V : Type 0} where
  -- Any fuel that is at least the number of texts gives one answer.
  pub embed_texts-fuel :
      (fuel more : ℕ) (e : Embedder V) (texts : List Text)
      → length texts ≤ fuel
      → length texts ≤ more
      → embed_texts fuel e texts ≡ embed_texts more e texts
  unfolding embed_texts
  embed_texts-fuel fuel more e [] h k = refl
  embed_texts-fuel zero more e (t ∷ texts) h k = absurd (omega arith)
  embed_texts-fuel (suc fuel) zero e (t ∷ texts) h k = absurd (omega arith)
  embed_texts-fuel (suc fuel) (suc more) e (t ∷ texts) h k = rw (
      embed_texts-fuel fuel more e (drop embed_batch (t ∷ texts))
        (omega (arith, length-drop embed_batch (t ∷ texts)))
        (omega (arith, length-drop embed_batch (t ∷ texts))))

  pub length-has_neighbor :
      (similar : V → V → Bool) (vs : List V) → length (has_neighbor similar vs) ≡ length vs
  unfolding has_neighbor
  length-has_neighbor similar [] = refl
  length-has_neighbor similar (v ∷ vs) =
      ap suc (each (map (similar v) vs) (has_neighbor similar vs) ∙ length-has_neighbor similar vs)
    where
      each : (xs ys : List Bool) → length (or_each xs ys) ≡ length ys
      each [] ys = refl
      each (a ∷ xs) [] = refl
      each (a ∷ xs) (b ∷ ys) = ap suc (each xs ys)

count-flagged :
    (q : Text → Bool) (paths : List Text) (flags : List Bool)
    → length flags ≡ length paths
    → count q (flagged paths flags) + count q (unflagged paths flags) ≡ count q paths
count-flagged q [] [] h = refl
count-flagged q [] (b ∷ flags) h = absurd (omega arith)
count-flagged q (p ∷ paths) [] h = absurd (omega arith)
count-flagged q (p ∷ paths) (b ∷ flags) h = ground (arith, count-flagged q paths flags)

module _ {V : Type 0} where
  firsts-zip :
      (ps : List (Text × Text)) (vs : List V)
      → length vs ≡ length ps
      → firsts (zip (firsts ps) vs) ≡ firsts ps
  firsts-zip [] [] h = refl
  firsts-zip [] (v ∷ vs) h = absurd (omega arith)
  firsts-zip (p ∷ ps) [] h = absurd (omega arith)
  firsts-zip (p ∷ ps) (v ∷ vs) h = ap (λ r. p.0 ∷ r) (firsts-zip ps vs (omega arith))

  pub length-firsts : (ps : List (Text × V)) → length (seconds ps) ≡ length (firsts ps)
  length-firsts [] = refl
  length-firsts (p ∷ ps) = ap suc (length-firsts ps)

  firsts-same_count :
      (ps : List (Text × Text)) (r : Option (List V)) (embs : List (Text × V))
      → same_count ps r ≡ some embs
      → firsts embs ≡ firsts ps
  firsts-same_count ps none embs h = absurd (cc h)
  firsts-same_count ps (some vs) embs h = elim (Bool-cases (length vs == length ps)) [
    | inl e ↦
        let k : some (zip (firsts ps) vs) ≡ some embs = rw e at h in
        let same : zip (firsts ps) vs ≡ embs = cc in
        ap firsts (sym same) ∙ firsts-zip ps vs (ground arith)
    | inr n ↦ absurd (cc (rw n at h))
  ]

  embedded_paths :
      (e : Embedder V) (files : List Source) (embs : List (Text × V))
      → get_embeddings_for_files e files ≡ some embs
      → firsts embs ≡ firsts (readable files)
  unfolding get_embeddings_for_files
  embedded_paths e files embs h = firsts-same_count (readable files) _ embs h

  -- Each file that was embedded stands exactly once among the priority and the isolated files.
  pub prefilter-partition :
      (e : Embedder V) (files : List Source) (embs : List (Text × V)) (q : Text → Bool)
      → get_embeddings_for_files e files ≡ some embs
      → count q (prefilter_batch e files).0 + count q (prefilter_batch e files).1
        ≡ count q (firsts (readable files))
  unfolding prefilter_batch
  prefilter-partition e files embs q h = rw h (
      unfold split_up in
      count-flagged q (firsts embs) (has_neighbor e.similar (seconds embs))
        (length-has_neighbor e.similar (seconds embs) ∙ length-firsts embs)
      ∙ ap (count q) (embedded_paths e files embs h))
