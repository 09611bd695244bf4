-- ===== src/Extract/Summary/Merged.antt =====
-- The merging of the windows of an archive: no item is lost, and none stands twice.
use mathlib.Core.Path.{subst}
use dinomem.Prelude.{
  ◌≡◌, refl, sym, inl, inr, Bool, true, false, ◌||◌, List, [], ◌∷◌, arith, Bool-cases, any, All,
  All-map,
}
use dinomem.Prelude.Text.{Text, text_eq, text_eq_iff, text_eq_refl}
use dinomem.Extract.Summary.{Fields, item_key, unseen, over, merge_fields}

-- `list_keys`
pub data ListKey : Type 0 where
  insights source_scores decisions corrections operational : ListKey
  user_preferences user_facts topics relations entities : ListKey

abbrev pub get : ListKey → Fields → List Text
get insights f = f.insights
get source_scores f = f.source_scores
get decisions f = f.decisions
get corrections f = f.corrections
get operational f = f.operational
get user_preferences f = f.user_preferences
get user_facts f = f.user_facts
get topics f = f.topics
get relations f = f.relations
get entities f = f.entities

get-merge :
    (lower : Text → Text) (k : ListKey) (fs : List Fields)
    → get k (merge_fields lower fs) ≡ unseen lower [] (over (get k) fs)
unfolding merge_fields
get-merge lower insights fs = refl
get-merge lower source_scores fs = refl
get-merge lower decisions fs = refl
get-merge lower corrections fs = refl
get-merge lower operational fs = refl
get-merge lower user_preferences fs = refl
get-merge lower user_facts fs = refl
get-merge lower topics fs = refl
get-merge lower relations fs = refl
get-merge lower entities fs = refl

module _ (lower : Text → Text) where
  -- An item with no key, or one whose key some item of the list has.
  abbrev pub IsIn : List Text → Text → Type 0
  IsIn list item =
      (text_eq (item_key lower item) []
        || any (λ m. text_eq (item_key lower item) (item_key lower m)) list)
      ≡ true

  -- No two items have one key.
  abbrev pub Distinct : List Text → Type 0
  Distinct [] = Unit
  Distinct (item ∷ rest) =
      All (λ m. text_eq (item_key lower m) (item_key lower item) ≡ false) rest × Distinct rest

  abbrev IsSeen : List Text → List Text → Text → Type 0
  IsSeen seen list item =
      (text_eq (item_key lower item) []
        || any (text_eq (item_key lower item)) seen
        || any (λ m. text_eq (item_key lower item) (item_key lower m)) list)
      ≡ true

  abbrev is_skipped : List Text → Text → Bool
  is_skipped seen item =
      text_eq (item_key lower item) [] || any (text_eq (item_key lower item)) seen

  unseen-skip :
      (seen rest : List Text) (item : Text)
      → is_skipped seen item ≡ true
      → unseen lower seen (item ∷ rest) ≡ unseen lower seen rest
  unfolding unseen
  unseen-skip seen rest item e = rw (e, unseen) refl

  unseen-keep :
      (seen rest : List Text) (item : Text)
      → is_skipped seen item ≡ false
      → unseen lower seen (item ∷ rest) ≡ item ∷ unseen lower (item_key lower item ∷ seen) rest
  unfolding unseen
  unseen-keep seen rest item e = rw (e, unseen) refl

  unseen-IsSeen : (seen items : List Text) → All (IsSeen seen (unseen lower seen items)) items
  unseen-IsSeen seen [] = tt
  unseen-IsSeen seen (item ∷ rest) = elim (Bool-cases (is_skipped seen item)) [
    | inl e ↦
        subst (λ l. All (IsSeen seen l) (item ∷ rest)) (sym (unseen-skip seen rest item e))
          (rw e refl, unseen-IsSeen seen rest)
    | inr n ↦
        subst (λ l. All (IsSeen seen l) (item ∷ rest)) (sym (unseen-keep seen rest item n))
          (
            ground (arith, text_eq_refl (item_key lower item)),
            All-map (λ x h. ground arith) rest (unseen-IsSeen (item_key lower item ∷ seen) rest),
          )
  ]

  unseen-fresh :
      (seen items : List Text) (k : Text)
      → any (λ t. text_eq t k) seen ≡ true
      → All (λ m. text_eq (item_key lower m) k ≡ false) (unseen lower seen items)
  unseen-fresh seen [] k h = unfold unseen in tt
  unseen-fresh seen (item ∷ rest) k h = elim (Bool-cases (is_skipped seen item)) [
    | inl e ↦ rw (unseen-skip seen rest item e) (unseen-fresh seen rest k h)
    | inr n ↦ rw (unseen-keep seen rest item n) (
      differs (item_key lower item) seen (ground arith) h,
      unseen-fresh (item_key lower item ∷ seen) rest k (ground arith),
    )
  ]
    where
      differs :
          (t : Text) (l : List Text)
          → any (text_eq t) l ≡ false
          → any (λ u. text_eq u k) l ≡ true
          → text_eq t k ≡ false
      differs t [] a b = absurd (cc)
      differs t (u ∷ l) a b =
          ground (arith, text_eq_iff t u, text_eq_iff u k, text_eq_iff t k, differs t l)

  unseen-Distinct : (seen items : List Text) → Distinct (unseen lower seen items)
  unseen-Distinct seen [] = unfold unseen in tt
  unseen-Distinct seen (item ∷ rest) = elim (Bool-cases (is_skipped seen item)) [
    | inl e ↦ rw (unseen-skip seen rest item e) (unseen-Distinct seen rest)
    | inr n ↦ rw (unseen-keep seen rest item n) (
      unseen-fresh (item_key lower item ∷ seen) rest (item_key lower item)
          (head (item_key lower item) seen),
      unseen-Distinct (item_key lower item ∷ seen) rest,
    )
  ]
    where
      head : (t : Text) (l : List Text) → (text_eq t t || any (λ u. text_eq u t) l) ≡ true
      head t l = rw ((text_eq_iff t t).1 refl)

  -- Every item of every window that has a key is in the merged list of its kind, with its own words or those of
  -- an item with the same key; and no two items of that list have the same key.
  pub merge_fields-covers :
      (k : ListKey) (fs : List Fields)
      → All (IsIn (get k (merge_fields lower fs))) (over (get k) fs)
        × Distinct (get k (merge_fields lower fs))
  merge_fields-covers k fs =
      subst (λ l. All (IsIn l) (over (get k) fs) × Distinct l) (sym (get-merge lower k fs))
        (
          All-map (λ x h. ground arith) (over (get k) fs) (unseen-IsSeen [] (over (get k) fs)),
          unseen-Distinct [] (over (get k) fs),
        )
