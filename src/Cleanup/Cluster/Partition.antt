-- ===== src/Cleanup/Cluster/Partition.antt =====
-- Every index is in one cluster, once.
use dinomem.Prelude.{
  ℕ, inl, inr, Bool-cases, zero, suc, ◌+◌, ◌≡◌, refl, ap, ◌∙◌, Bool, ◌&&◌, none, some, List, [],
  ◌∷◌, ◌++◌, arith, ltb, leb, ◌==◌, if◌then◌else◌, length, count,
}
use dinomem.Cleanup.Cluster.{Assigned, gather, clusters_from, unassigned, cluster_items}

-- The indices with no cluster, when the array starts at `j`.
abbrev pub free : ℕ → Assigned → List ℕ
free j [] = []
free j (none ∷ a) = j ∷ free (suc j) a
free j (some k ∷ a) = free (suc j) a

-- how often an index occurs
abbrev pub times : ℕ → List ℕ → ℕ
times k is = count (λ m. m == k) is

abbrev pub concat {ℓ} : {A : Type ℓ} → List (List A) → List A
concat [] = []
concat (c ∷ cs) = c ++ concat cs

-- once, or not at all
abbrev pub index_count : Bool → ℕ
index_count b = if b then 1 else 0

times-append : (k : ℕ) (xs ys : List ℕ) → times k (xs ++ ys) ≡ times k xs + times k ys
times-append k [] ys = omega arith
times-append k (x ∷ xs) ys = ground (arith, times-append k xs ys)

module _ (near : ℕ → ℕ → Bool) where
  gather-times :
      (k i label j : ℕ) (a : Assigned)
      → times k (gather near i label j a).0 + times k (free j (gather near i label j a).1)
        ≡ times k (free j a)
  unfolding gather
  gather-times k i label j [] = refl
  gather-times k i label j (some m ∷ a) = gather-times k i label (suc j) a
  gather-times k i label j (none ∷ a) = elim (Bool-cases (near i j)) [
    | inl e ↦ rw e (ground (arith, gather-times k i label (suc j) a))
    | inr n ↦ rw n (ground (arith, gather-times k i label (suc j) a))
  ]

  gather-length : (i label j : ℕ) (a : Assigned) → length (gather near i label j a).1 ≡ length a
  unfolding gather
  gather-length i label j [] = refl
  gather-length i label j (some m ∷ a) = ap suc (gather-length i label (suc j) a)
  gather-length i label j (none ∷ a) = elim (Bool-cases (near i j)) [
    | inl e ↦ rw e (ap suc (gather-length i label (suc j) a))
    | inr n ↦ rw n (ap suc (gather-length i label (suc j) a))
  ]

  clusters_from-times :
      (k label i n : ℕ) (a : Assigned)
      → length a ≡ n
      → times k (concat (clusters_from near label i n a)) ≡ times k (free i a)
  unfolding clusters_from
  clusters_from-times k label i zero [] h = refl
  clusters_from-times k label i zero (x ∷ a) h = absurd (omega arith)
  clusters_from-times k label i (suc n) [] h = absurd (omega arith)
  clusters_from-times k label i (suc n) (some m ∷ a) h =
      clusters_from-times k label (suc i) n a (omega arith)
  clusters_from-times k label i (suc n) (none ∷ a) h =
      let (cluster, rest) = gather near i label (suc i) a in
      head cluster (concat (clusters_from near (suc label) (suc i) n rest)) (free (suc i) a) (
        times-append k cluster (concat (clusters_from near (suc label) (suc i) n rest))
        ∙ (ap (λ t. times k cluster + t)
              (clusters_from-times k (suc label) (suc i) n rest
                (gather-length i label (suc i) a ∙ omega arith))
            ∙ gather-times k i label (suc i) a))
    where
      head :
          (c cs f : List ℕ)
          → times k (c ++ cs) ≡ times k f
          → times k (i ∷ c ++ cs) ≡ times k (i ∷ f)
      head c cs f e = ground arith

  length-unassigned : (n : ℕ) → length (unassigned n) ≡ n
  length-unassigned zero = refl
  length-unassigned (suc n) = ap suc (length-unassigned n)

  free-times :
      (k i n : ℕ) → times k (free i (unassigned n)) ≡ index_count (leb i k && ltb k (i + n))
  free-times k i zero = ground arith
  free-times k i (suc n) = ground (arith, free-times k (suc i) n)

  -- Of the indices of n items each is in exactly one of the clusters of `cluster_items`, once, and no
  -- other index is in any.
  pub cluster_items-times :
      (n k : ℕ) → times k (concat (cluster_items near n)) ≡ index_count (ltb k n)
  unfolding cluster_items
  cluster_items-times n k =
      clusters_from-times k 0 0 n (unassigned n) (length-unassigned n) ∙ (free-times k 0 n ∙ simple)
    where
      simple : index_count (leb 0 k && ltb k (0 + n)) ≡ index_count (ltb k n)
      simple = ground arith
