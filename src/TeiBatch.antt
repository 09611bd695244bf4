-- ===== src/TeiBatch.antt =====
-- tools/tei_batch_chunk.py: requests to the embedding server in batches that it accepts.
pub mod Order
mod Tests
use dinomem.Prelude.{
  ℕ, zero, suc, Option, none, some, List, [], ◌∷◌, ◌++◌, leb, ◌==◌, max, if◌then◌else◌, length,
  take, drop,
}

-- TEI_MAX_BATCH, from the number in the environment
unfoldable pub tei_max_batch : ℕ → ℕ
tei_max_batch configured = max 1 configured

-- `size or TEI_MAX_BATCH`: zero counts as no size
unfoldable pub batch_or : ℕ → Option ℕ → ℕ
batch_or configured none = tei_max_batch configured
batch_or configured (some n) = if n == 0 then tei_max_batch configured else n

-- The slices of `range(0, len(items), n)`; one round for each item is enough.
unfoldable pub slices {ℓ} : {A : Type ℓ} → ℕ → ℕ → List A → List (List A)
slices fuel n [] = []
slices zero n (x ∷ items) = []
slices (suc fuel) n (x ∷ items) = take n (x ∷ items) ∷ slices fuel n (drop n (x ∷ items))

unfoldable pub chunk_list {ℓ} : {A : Type ℓ} → ℕ → List A → Option ℕ → List (List A)
chunk_list configured items size = slices (length items) (batch_or configured size) items

-- the loop that extends the vectors batch by batch
unfoldable pub extend_all {ℓ κ} :
    {A : Type ℓ} {V : Type κ} → (List A → List V) → List V → List (List A) → List V
extend_all embed_fn out [] = out
extend_all embed_fn out (batch ∷ batches) = extend_all embed_fn (out ++ embed_fn batch) batches

-- `embed_documents_batched`
unfoldable pub embed_documents_batched {ℓ κ} :
    {A : Type ℓ} {V : Type κ} → ℕ → List A → (List A → List V) → Option ℕ → List V
embed_documents_batched configured [] embed_fn max_batch = []
embed_documents_batched configured (t ∷ texts) embed_fn max_batch =
    let limit = batch_or configured max_batch in
    if leb (length (t ∷ texts)) limit
    then embed_fn (t ∷ texts)
    else extend_all embed_fn [] (chunk_list configured (t ∷ texts) (some limit))
