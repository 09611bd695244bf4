-- ===== src/Cleanup/Cluster.antt =====
-- The greedy clusters of procedures/memory_cleanup.py: `cluster_items`. The test of the cosine of two
-- embeddings against the threshold is a parameter, `near`, on their indices.
pub mod Partition
pub mod Heads
use dinomem.Prelude.{ℕ, zero, suc, Bool, Option, none, some, List, [], ◌∷◌, if◌then◌else◌}

-- The array `assigned` from an index on; none is the -1 of an item with no cluster yet.
abbrev pub Assigned : Type 0
Assigned = List (Option ℕ)

abbrev add_if : Bool → ℕ → ℕ → List ℕ × Assigned → List ℕ × Assigned
add_if b j label (cluster, rest) =
    if b then (j ∷ cluster, some label ∷ rest) else (cluster, none ∷ rest)

-- The inner loop, from `j` on: what it appends to the cluster of `i`, and the array afterwards.
unfoldable pub gather : (ℕ → ℕ → Bool) → ℕ → ℕ → ℕ → Assigned → List ℕ × Assigned
gather near i label j [] = ([], [])
gather near i label j (some k ∷ a) =
    let (cluster, rest) = gather near i label (suc j) a in (cluster, some k ∷ rest)
gather near i label j (none ∷ a) = add_if (near i j) j label (gather near i label (suc j) a)

-- The outer loop, from `i` on, for the last `n` items.
unfoldable pub clusters_from : (ℕ → ℕ → Bool) → ℕ → ℕ → ℕ → Assigned → List (List ℕ)
clusters_from near label i zero a = []
clusters_from near label i (suc n) [] = []
clusters_from near label i (suc n) (some k ∷ a) = clusters_from near label (suc i) n a
clusters_from near label i (suc n) (none ∷ a) =
    let (cluster, rest) = gather near i label (suc i) a in
    (i ∷ cluster) ∷ clusters_from near (suc label) (suc i) n rest

-- `[-1] * n`
abbrev pub unassigned : ℕ → Assigned
unassigned zero = []
unassigned (suc n) = none ∷ unassigned n

-- `cluster_items`, for `n` items
unfoldable pub cluster_items : (ℕ → ℕ → Bool) → ℕ → List (List ℕ)
cluster_items near n = clusters_from near 0 0 n (unassigned n)
