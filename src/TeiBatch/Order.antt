-- ===== src/TeiBatch/Order.antt =====
-- The batches of tools/tei_batch_chunk.py beside the list of items.
use mathlib.Core.List.{append_assoc, append-nil}
use dinomem.Prelude.{
  ℕ, zero, suc, ◌≤◌, ◌<◌, ◌≡◌, refl, ap, sym, ◌∙◌, Option, some, List, [], ◌∷◌, ◌++◌, length, take,
  drop, take-append-drop, length-take, length-drop, All, arith,
}
use dinomem.TeiBatch.{
  tei_max_batch, batch_or, slices, chunk_list, extend_all, embed_documents_batched,
}

pub batch_or_pos : (configured : ℕ) (size : Option ℕ) → 0 < batch_or configured size
unfolding batch_or tei_max_batch
batch_or_pos configured size = ground arith

-- the lists one behind the other
abbrev pub concat {ℓ} : {A : Type ℓ} → List (List A) → List A
concat [] = []
concat (l ∷ ls) = l ++ concat ls

module _ {ℓ} {A : Type ℓ} where
  concat-slices :
      (fuel n : ℕ) (items : List A)
      → 0 < n
      → length items ≤ fuel
      → concat (slices fuel n items) ≡ items
  unfolding slices
  concat-slices zero n [] h k = refl
  concat-slices (suc fuel) n [] h k = refl
  concat-slices zero n (x ∷ items) h k = absurd (omega arith)
  concat-slices (suc fuel) n (x ∷ items) h k =
      ap (λ r. take n (x ∷ items) ++ r)
        (concat-slices fuel n (drop n (x ∷ items)) h (omega (arith, length-drop n (x ∷ items))))
      ∙ take-append-drop n (x ∷ items)

  slices_bounds :
      (fuel n : ℕ) (items : List A)
      → 0 < n
      → All (λ b. (0 < length b) × (length b ≤ n)) (slices fuel n items)
  unfolding slices
  slices_bounds zero n [] h = tt
  slices_bounds (suc fuel) n [] h = tt
  slices_bounds zero n (x ∷ items) h = tt
  slices_bounds (suc fuel) n (x ∷ items) h = (
    (omega (arith, length-take n (x ∷ items)), omega (arith, length-take n (x ∷ items))),
    slices_bounds fuel n (drop n (x ∷ items)) h,
  )

  -- The batches one behind the other are the items, each batch has an item, and none has more than the
  -- limit, for every size and every setting of the environment.
  pub chunk_list_lem :
      (configured : ℕ) (items : List A) (size : Option ℕ)
      → (concat (chunk_list configured items size) ≡ items)
        × All
            (λ b. (0 < length b) × (length b ≤ batch_or configured size))
            (chunk_list configured items size)
  unfolding chunk_list
  chunk_list_lem configured items size = (
    concat-slices (length items) (batch_or configured size) items (batch_or_pos configured size)
        (omega arith),
    slices_bounds (length items) (batch_or configured size) items (batch_or_pos configured size),
  )

module _ {ℓ κ} {A : Type ℓ} {V : Type κ} (embed_fn : List A → List V)
    (embed-append : (xs ys : List A) → embed_fn (xs ++ ys) ≡ embed_fn xs ++ embed_fn ys)
    (embed-nil : embed_fn [] ≡ []) where
  extend_all_lem :
      (out : List V) (batches : List (List A))
      → extend_all embed_fn out batches ≡ out ++ embed_fn (concat batches)
  unfolding extend_all
  extend_all_lem out [] = sym (append-nil out) ∙ ap (λ r. out ++ r) (sym embed-nil)
  extend_all_lem out (b ∷ batches) =
      extend_all_lem (out ++ embed_fn b) batches
      ∙ (append_assoc out (embed_fn b) (embed_fn (concat batches))
          ∙ ap (λ r. out ++ r) (sym (embed-append b (concat batches))))

  -- Where the server embeds each text by itself, batching changes nothing: the vectors are those of one
  -- request for all texts, in order.
  pub embed_documents_batched_lem :
      (configured : ℕ) (texts : List A) (max_batch : Option ℕ)
      → embed_documents_batched configured texts embed_fn max_batch ≡ embed_fn texts
  unfolding embed_documents_batched
  embed_documents_batched_lem configured [] max_batch = sym embed-nil
  embed_documents_batched_lem configured (t ∷ texts) max_batch = ground (
    arith,
    extend_all_lem [] (chunk_list configured (t ∷ texts) (some (batch_or configured max_batch))),
    ap embed_fn (chunk_list_lem configured (t ∷ texts) (some (batch_or configured max_batch))).0,
  )
