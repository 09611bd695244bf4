-- ===== src/Review/Batch/Cycle.antt =====
-- The bounds of a batch, and the runs of one cycle.
use mathlib.Core.List.{append-nil}
use dinomem.Prelude.{
  ℕ, zero, suc, ◌+◌, ◌*◌, ◌-◌, ◌≤◌, ◌<◌, ◌≡◌, ap, sym, ◌∙◌, List, [], ◌++◌, arith, min, length,
  take, drop, length-take, length-drop, take_all, take-add, drop-drop,
}
use mathlib.Core.Path.{ap₂}
use dinomem.Review.Batch.{get_batch_size, Cursor, reset_total, wrap, next_batch}

-- A batch has from 5 to 150 files, and seven batches hold all the files, or 1050 of them.
pub get_batch_size_bounds :
    (total : ℕ)
    → (5 ≤ get_batch_size total)
      × (get_batch_size total ≤ 150)
      × (min total 1050 ≤ 7 * get_batch_size total)
unfolding get_batch_size
get_batch_size_bounds total = ground arith

module _ {ℓ} {A : Type ℓ} where
  -- What `n` runs review while no file comes or goes, in order.
  unfoldable pub batches : ℕ → List A → Cursor → List A
  batches zero files c = []
  batches (suc n) files c = (next_batch files c).0 ++ batches n files (next_batch files c).1

  -- a run that starts at `o`, with the cursor that the next one finds
  record Starts (files : List A) (c : Cursor) (o : ℕ) : Type 0 where
    offset : (wrap (length files) (reset_total (length files) c)).offset ≡ o
    total : (wrap (length files) (reset_total (length files) c)).total ≡ length files

  inside-Starts :
      (files : List A) (c : Cursor)
      → c.total ≡ length files
      → c.offset < length files
      → Starts files c c.offset
  unfolding reset_total wrap
  inside-Starts files c e h = record { offset = ground arith; total = ground arith }

  next_batch-Starts :
      (files : List A) (c : Cursor) (o : ℕ)
      → Starts files c o
      → ((next_batch files c).0 ≡ take (get_batch_size (length files)) (drop o files))
        × ((next_batch files c).1.offset
            ≡ o + min (get_batch_size (length files)) (length files - o))
        × ((next_batch files c).1.total ≡ length files)
  next_batch-Starts files c o s =
      unfold next_batch in
      (
        ap (λ k. take (get_batch_size (length files)) (drop k files)) s.offset,
        omega (
          arith,
          s.offset,
          length-take (get_batch_size (length files))
              (drop (wrap (length files) (reset_total (length files) c)).offset files),
          length-drop (wrap (length files) (reset_total (length files) c)).offset files,
        ),
        s.total,
      )

  batches-Starts :
      (n : ℕ) (files : List A) (c : Cursor) (o : ℕ)
      → Starts files c o
      → o + n * get_batch_size (length files) < length files
      → batches (suc n) files c ≡ take (suc n * get_batch_size (length files)) (drop o files)
  unfolding batches
  batches-Starts zero files c o s h =
      append-nil (next_batch files c).0
      ∙ ((next_batch-Starts files c o s).0 ∙ ap (λ k. take k (drop o files)) (omega arith))
  batches-Starts (suc n) files c o s h =
      let b = get_batch_size (length files) in
      let (taken, offset, total) = next_batch-Starts files c o s in
      let c' = (next_batch files c).1 in
      let next : c'.offset ≡ o + b = omega arith in
      let inside : c'.offset < length files = omega arith in
      let rest =
        batches-Starts n files c' c'.offset (inside-Starts files c' total inside) (omega arith) in
      ap₂ (λ x y. x ++ y) taken
        (rest
          ∙ ap (λ k. take (suc n * b) k) (ap (λ k. drop k files) next ∙ sym (drop-drop o b files)))
      ∙ (take-add b (suc n * b) (drop o files) ∙ ap (λ k. take k (drop o files)) (omega arith))

  -- While no file comes or goes, the runs of one cycle, from a cursor that starts or wraps at this
  -- run, take every file once and in order; a cycle is as many batches as hold the files.
  pub cycle_covers :
      (n : ℕ) (files : List A) (c : Cursor)
      → (wrap (length files) (reset_total (length files) c)).offset ≡ 0
      → n * get_batch_size (length files) < length files
      → length files ≤ suc n * get_batch_size (length files)
      → batches (suc n) files c ≡ files
  cycle_covers n files c start more enough =
      batches-Starts n files c 0 (record { offset = start; total = first_total c }) (omega arith)
      ∙ take_all (suc n * get_batch_size (length files)) files enough
    where
      first_total :
          (c : Cursor) → (wrap (length files) (reset_total (length files) c)).total ≡ length files
      first_total c = unfold wrap reset_total in ground arith
