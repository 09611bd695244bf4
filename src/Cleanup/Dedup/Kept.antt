-- ===== src/Cleanup/Dedup/Kept.antt =====
-- What `semantic_dedup_items` keeps: items of its input that are no noise, from every group the longest,
-- and no two similar ones where texts are compared.
use dinomem.Prelude.{
  ℕ, zero, suc, ◌≤◌, ◌≡◌, refl, ap, sym, inl, inr, Bool, true, false, not, Option, some, List, [],
  ◌∷◌, arith, ltb, Bool-cases, Option-cases, if◌then◌else◌, length, filter, any, All, All-map,
}
use dinomem.Prelude.Text.{Text, text_eq, text_eq_refl}
use dinomem.Cleanup.Cluster.{cluster_items}
use dinomem.Cleanup.Dedup.{
  Tools, is_framework_noise, longest, merge_cluster, get_elem?, somes, pick, merged, string_dedup,
  dedup_texts, semantic_dedup_items,
}

-- `t in texts`
abbrev pub Has : Text → List Text → Type 0
Has t texts = any (text_eq t) texts ≡ true

All-Has : (texts : List Text) → All (λ t. Has t texts) texts
All-Has [] = tt
All-Has (t ∷ texts) = (
  rw (text_eq_refl t),
  All-map {P = λ s. Has s texts} {Q = λ s. Has s (t ∷ texts)} (λ s h. ground arith) texts
      (All-Has texts),
)

All-longest {ℓ} :
    (P : Text → Type ℓ) (best : Text) (ts : List Text) → P best → All P ts → P (longest best ts)
unfolding longest
All-longest P best [] b h = b
All-longest P best (t ∷ ts) b h = elim (Bool-cases (ltb (length best) (length t))) [
  | inl e ↦ rw e (All-longest P t ts h.0 h.1)
  | inr n ↦ rw n (All-longest P best ts b h.1)
]

All-somes {ℓ κ ι} :
    {A : Type ℓ} {B : Type 0} (P : B → Type κ) (Q : A → Type ι) (f : A → Option B)
    → ((x : A) (y : B) → Q x → f x ≡ some y → P y)
    → (xs : List A) → All Q xs
    → All P (somes f xs)
unfolding somes
All-somes P Q f g [] h = tt
All-somes P Q f g (x ∷ xs) h = elim (Option-cases (f x)) [
  | inl e ↦ rw e (All-somes P Q f g xs h.1)
  | inr (y, e) ↦ rw e (g x y h.0 e, All-somes P Q f g xs h.1)
]

All-unit {ℓ} : {A : Type ℓ} (xs : List A) → All {ℓ, 0} (λ _. Unit) xs
All-unit [] = tt
All-unit (x ∷ xs) = (tt, All-unit xs)

module _ {ℓ} (P : Text → Type ℓ) where
  get_elem?-All : (ts : List Text) (i : ℕ) (t : Text) → All P ts → get_elem? ts i ≡ some t → P t
  unfolding get_elem?
  get_elem?-All [] i t h e = absurd (cc e)
  get_elem?-All (x ∷ ts) zero t h e = rw (sym (some_inj x t e)) h.0
    where
      some_inj : (a b : Text) → some a ≡ some b → a ≡ b
      some_inj a b e = cc
  get_elem?-All (x ∷ ts) (suc i) t h e = get_elem?-All ts i t h.1 e

  merge_cluster-All : (ts : List Text) (m : Text) → All P ts → merge_cluster ts ≡ some m → P m
  unfolding merge_cluster
  merge_cluster-All [] m h e = absurd (cc e)
  merge_cluster-All (t ∷ ts) m h e =
      rw (sym (some_inj (longest t ts) m e)) (All-longest P t ts h.0 h.1)
    where
      some_inj : (a b : Text) → some a ≡ some b → a ≡ b
      some_inj a b e = cc

  merged-All : (texts : List Text) (cs : List (List ℕ)) → All P texts → All P (merged texts cs)
  unfolding merged pick
  merged-All texts cs h =
      All-somes P (λ _. Unit) _
        (λ c m _ e.
          merge_cluster-All (somes (get_elem? texts) c) m
            (All-somes P (λ _. Unit) (get_elem? texts) (λ i t _ e. get_elem?-All texts i t h e) c
              (All-unit c))
            e)
        cs (All-unit cs)

  string_dedup-All :
      (w : Tools) (seen texts : List Text) → All P texts → All P (string_dedup w seen texts)
  unfolding string_dedup
  string_dedup-All w seen [] h = tt
  string_dedup-All w seen (t ∷ texts) h = elim (Bool-cases (any (w.is_similar t) seen)) [
    | inl e ↦ rw e (string_dedup-All w seen texts h.1)
    | inr n ↦ rw n (h.0, string_dedup-All w (t ∷ seen) texts h.1)
  ]

  dedup_texts-All : (w : Tools) (texts : List Text) → All P texts → All P (dedup_texts w texts)
  unfolding dedup_texts
  dedup_texts-All w [] h = tt
  dedup_texts-All w (t ∷ ts) h = elim (Option-cases (w.embeddings (t ∷ ts))) [
    | inl e ↦ rw e (string_dedup-All w [] (t ∷ ts) h)
    | inr (near, e) ↦ rw e (merged-All (t ∷ ts) (cluster_items near (length (t ∷ ts))) h)
  ]

All-filter_both {ℓ} :
    (P : Text → Type ℓ) (p : Text → Bool) (xs : List Text)
    → All P xs
    → All (λ t. P t × (p t ≡ true)) (filter p xs)
All-filter_both P p [] h = tt
All-filter_both P p (x ∷ xs) h = elim (Bool-cases (p x)) [
  | inl e ↦ rw e ((h.0, e), All-filter_both P p xs h.1)
  | inr n ↦ rw n (All-filter_both P p xs h.1)
]

-- Every text in the result of `semantic_dedup_items` is one of the items and is no framework noise, with
-- the embeddings and without them.
pub semantic_dedup_items-Has :
    (w : Tools) (items : List Text)
    → All
        (λ t. Has t items × (not (is_framework_noise w t) ≡ true))
        (semantic_dedup_items w items).0
unfolding semantic_dedup_items
semantic_dedup_items-Has w items =
    dedup_texts-All _ w (filter (λ t. not (is_framework_noise w t)) items)
      (All-filter_both (λ t. Has t items) _ items (All-Has items))

longest-ge_first : (best : Text) (ts : List Text) → length best ≤ length (longest best ts)
unfolding longest
longest-ge_first best [] = omega arith
longest-ge_first best (t ∷ ts) = elim (Bool-cases (ltb (length best) (length t))) [
  | inl e ↦ rw e (ground (arith, longest-ge_first t ts))
  | inr n ↦ rw n (longest-ge_first best ts)
]

longest-ge :
    (best : Text) (ts : List Text) (m : Text)
    → m ≡ longest best ts
    → All (λ t. length t ≤ length m) ts
unfolding longest
longest-ge best [] m e = tt
longest-ge best (t ∷ ts) m e =
    let next = if ltb (length best) (length t) then t else best in
    (
      trans (grown (ltb (length best) (length t)) refl) (longest-ge_first next ts) (ap length e),
      longest-ge next ts m e,
    )
  where
    grown :
        (b : Bool) → ltb (length best) (length t) ≡ b → length t ≤ length (if b then t else best)
    grown true h = omega arith
    grown false h = ground arith

    trans : {a b c n : ℕ} → a ≤ b → b ≤ c → n ≡ c → a ≤ n
    trans h k e = omega arith

-- The text that stands for a cluster is at least as long as every text of the cluster.
pub merge_cluster-longest :
    (ts : List Text) (m : Text) → merge_cluster ts ≡ some m → All (λ t. length t ≤ length m) ts
unfolding merge_cluster
merge_cluster-longest [] m e = tt
merge_cluster-longest (t ∷ ts) m e =
    let same = some_inj (longest t ts) m e in
    (first (length m) (ap length same), longest-ge t ts m (sym same))
  where
    some_inj : (a b : Text) → some a ≡ some b → a ≡ b
    some_inj a b e = cc

    first : (n : ℕ) → length (longest t ts) ≡ n → length t ≤ n
    first n h = omega (arith, longest-ge_first t ts)
