-- ===== src/Cleanup/Cluster/Heads.antt =====
-- What the clusters have to do with the test: every member is near the head of its cluster, and no index
-- is near the head of an earlier cluster.
use dinomem.Prelude.{
  ℕ, zero, suc, ◌≡◌, inl, inr, Bool, true, false, none, some, List, [], ◌∷◌, Bool-cases, All,
  All-append,
}
use dinomem.Cleanup.Cluster.{Assigned, gather, clusters_from, unassigned, cluster_items}
use dinomem.Cleanup.Cluster.Partition.{free, concat}

module _ (near : ℕ → ℕ → Bool) where
  gather-near :
      (i label j : ℕ) (a : Assigned) → All (λ m. near i m ≡ true) (gather near i label j a).0
  unfolding gather
  gather-near i label j [] = tt
  gather-near i label j (some k ∷ a) = gather-near i label (suc j) a
  gather-near i label j (none ∷ a) = elim (Bool-cases (near i j)) [
    | inl e ↦ rw e (e, gather-near i label (suc j) a)
    | inr n ↦ rw n (gather-near i label (suc j) a)
  ]

  gather-far :
      (i label j : ℕ) (a : Assigned)
      → All (λ m. near i m ≡ false) (free j (gather near i label j a).1)
  unfolding gather
  gather-far i label j [] = tt
  gather-far i label j (some k ∷ a) = gather-far i label (suc j) a
  gather-far i label j (none ∷ a) = elim (Bool-cases (near i j)) [
    | inl e ↦ rw e (gather-far i label (suc j) a)
    | inr n ↦ rw n (n, gather-far i label (suc j) a)
  ]

  -- What holds of the free indices holds of those that the loop takes, and of those that it leaves.
  gather-All {κ} :
      (P : ℕ → Type κ) (i label j : ℕ) (a : Assigned)
      → All P (free j a)
      → All P (gather near i label j a).0 × All P (free j (gather near i label j a).1)
  unfolding gather
  gather-All P i label j [] h = (tt, tt)
  gather-All P i label j (some k ∷ a) h = gather-All P i label (suc j) a h
  gather-All P i label j (none ∷ a) h = elim (Bool-cases (near i j)) [
    | inl e ↦ rw e (let (x, y) = gather-All P i label (suc j) a h.1 in ((h.0, x), y))
    | inr n ↦ rw n (let (x, y) = gather-All P i label (suc j) a h.1 in (x, (h.0, y)))
  ]

  clusters-All {κ} :
      (P : ℕ → Type κ) (label i n : ℕ) (a : Assigned)
      → All P (free i a)
      → All P (concat (clusters_from near label i n a))
  unfolding clusters_from
  clusters-All P label i zero a h = tt
  clusters-All P label i (suc n) [] h = tt
  clusters-All P label i (suc n) (some k ∷ a) h = clusters-All P label (suc i) n a h
  clusters-All P label i (suc n) (none ∷ a) h =
      let (x, y) = gather-All P i label (suc i) a h.1 in
      (
        h.0,
        All-append P (gather near i label (suc i) a).0 _ x
            (clusters-All P (suc label) (suc i) n _ y),
      )

  -- The members of the first cluster are near its head, those of the later clusters are not, and so on for the
  -- later clusters. No cluster is empty.
  abbrev pub Greedy : List (List ℕ) → Type 0
  Greedy [] = Unit
  Greedy ([] ∷ cs) = ⊥
  Greedy ((i ∷ c) ∷ cs) =
      All (λ j. near i j ≡ true) c × (All (λ j. near i j ≡ false) (concat cs) × Greedy cs)

  clusters-Greedy : (label i n : ℕ) (a : Assigned) → Greedy (clusters_from near label i n a)
  unfolding clusters_from
  clusters-Greedy label i zero a = tt
  clusters-Greedy label i (suc n) [] = tt
  clusters-Greedy label i (suc n) (some k ∷ a) = clusters-Greedy label (suc i) n a
  clusters-Greedy label i (suc n) (none ∷ a) = (
    gather-near i label (suc i) a,
    (
      clusters-All (λ j. near i j ≡ false) (suc label) (suc i) n _ (gather-far i label (suc i) a),
      clusters-Greedy (suc label) (suc i) n (gather near i label (suc i) a).1,
    ),
  )

  -- No cluster of `cluster_items` is empty, every further member of a cluster is near its first, and no
  -- member of a later cluster is near the first of an earlier one.
  pub cluster_items-Greedy : (n : ℕ) → Greedy (cluster_items near n)
  unfolding cluster_items
  cluster_items-Greedy n = clusters-Greedy 0 0 n (unassigned n)
