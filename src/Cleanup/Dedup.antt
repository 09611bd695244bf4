-- ===== src/Cleanup/Dedup.antt =====
-- The items that the cleanup of procedures/memory_cleanup.py keeps: `is_framework_noise`,
-- `merge_cluster` and `semantic_dedup_items`.
pub mod Kept
use dinomem.Prelude.{
  ℕ, zero, suc, ◌-◌, Bool, true, false, not, Option, none, some, List, [], ◌∷◌, ltb, length, filter,
  any, count, if◌then◌else◌,
}
use dinomem.Prelude.Text.{Text, codes, contains}
use dinomem.Cleanup.Cluster.{cluster_items}

-- What the cleanup calls: `str.lower`, the test of `SequenceMatcher.ratio` against SIM_THRESHOLD, and the
-- service that embeds texts, one vector for each; it is given by the test of the cosine of two vectors, on
-- the indices of their texts, against SEMANTIC_THRESHOLD, and is none where no answer comes.
pub record Tools : Type 0 where
  pub lower : Text → Text
  pub is_similar : Text → Text → Bool
  pub embeddings : List Text → Option (ℕ → ℕ → Bool)

abbrev pub known_framework_facts : List Text
known_framework_facts =
    codes "framework validation: The AI successfully recalled"
    ∷ codes "framework validation: The AI correctly identified"
    ∷ codes "user expects exact adherence to instructions"
    ∷ codes "user expects structured and detailed recall"
    ∷ []

-- `is_framework_noise`
unfoldable pub is_framework_noise : Tools → Text → Bool
is_framework_noise w text =
    any (λ known. contains (w.lower known) (w.lower text)) known_framework_facts

-- `max` of what is left, by length: the first of the longest
unfoldable pub longest : Text → List Text → Text
longest best [] = best
longest best (t ∷ ts) = longest (if ltb (length best) (length t) then t else best) ts

-- `merge_cluster`; none is the ValueError for no items
unfoldable pub merge_cluster : List Text → Option Text
merge_cluster [] = none
merge_cluster (t ∷ ts) = some (longest t ts)

-- `texts[i]`
unfoldable pub get_elem? : List Text → ℕ → Option Text
get_elem? [] i = none
get_elem? (t ∷ ts) zero = some t
get_elem? (t ∷ ts) (suc i) = get_elem? ts i

abbrev pub add_some {ℓ} : {B : Type ℓ} → Option B → List B → List B
add_some none rest = rest
add_some (some y) rest = y ∷ rest

-- the values there are
unfoldable pub somes {ℓ κ} : {A : Type ℓ} {B : Type κ} → (A → Option B) → List A → List B
somes f [] = []
somes f (x ∷ xs) = add_some (f x) (somes f xs)

-- `[texts[i] for i in cluster]`
unfoldable pub pick : List Text → List ℕ → List Text
pick texts = somes (get_elem? texts)

-- `[merge_cluster(...) for cluster in clusters]`; no cluster is empty
unfoldable pub merged : List Text → List (List ℕ) → List Text
merged texts = somes (λ cluster. merge_cluster (pick texts cluster))

-- the fallback, from the list `seen` on, which is the result so far backwards
unfoldable pub string_dedup : Tools → List Text → List Text → List Text
string_dedup w seen [] = []
string_dedup w seen (text ∷ texts) =
    let skipped = string_dedup w seen texts in
    let taken = string_dedup w (text ∷ seen) texts in
    if any (w.is_similar text) seen then skipped else text ∷ taken

abbrev pub dedup_by : Tools → List Text → Option (ℕ → ℕ → Bool) → List Text
dedup_by w texts none = string_dedup w [] texts
dedup_by w texts (some near) = merged texts (cluster_items near (length texts))

-- the rest of `semantic_dedup_items`, from the texts that are no noise
unfoldable pub dedup_texts : Tools → List Text → List Text
dedup_texts w [] = []
dedup_texts w (t ∷ ts) = dedup_by w (t ∷ ts) (w.embeddings (t ∷ ts))

-- `semantic_dedup_items`
unfoldable pub semantic_dedup_items : Tools → List Text → List Text × ℕ
semantic_dedup_items w items =
    let result = dedup_texts w (filter (λ t. not (is_framework_noise w t)) items) in
    (result, length items - length result)
