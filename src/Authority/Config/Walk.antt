-- ===== src/Authority/Config/Walk.antt =====
-- What the ids of the configuration are.
use dinomem.Prelude.{
  ◌≡◌, inl, inr, Bool, true, Option, none, some, List, [], ◌∷◌, Bool-cases, filter, All,
}
use dinomem.Prelude.Text.{Text}
use dinomem.Authority.Config.{
  Json, Python, or_ids, is_digits, structured_ids, ids_of_line, ids_of_doc, ids_of_blob,
  ids_from_dinotrust_config, find_owner_line,
}

All-filter_own : (p : Text → Bool) (xs : List Text) → All (λ x. p x ≡ true) (filter p xs)
All-filter_own p [] = tt
All-filter_own p (x ∷ xs) = elim (Bool-cases (p x)) [
  | inl e ↦ rw e (e, All-filter_own p xs)
  | inr n ↦ rw n (All-filter_own p xs)
]

All-or_ids {ℓ} :
    (P : Text → Type ℓ) (xs ys : List Text) → All P xs → All P ys → All P (or_ids xs ys)
All-or_ids P [] ys h k = k
All-or_ids P (x ∷ xs) ys h k = h

module _ (e : Python) where
  AllDigits : List Text → Type 0
  AllDigits = All (λ x. is_digits e x ≡ true)

  doc_digits : (aid : Text) (doc : Option Json) → AllDigits (ids_of_doc e aid doc)
  unfolding AllDigits structured_ids
  doc_digits aid none = tt
  doc_digits aid (some doc) = All-filter_own (is_digits e) _

  line_digits : (group : Option Text) → AllDigits (ids_of_line e group)
  unfolding AllDigits
  line_digits none = tt
  line_digits (some group) = All-filter_own (is_digits e) _

  -- Every id that `_ids_from_dinotrust_config` returns consists of digits, whatever the configuration holds.
  pub ids_from_dinotrust_config-digits :
      (aid : Text) (blobs : List Text)
      → All (λ x. is_digits e x ≡ true) (ids_from_dinotrust_config e aid blobs)
  unfolding ids_from_dinotrust_config ids_of_blob AllDigits
  ids_from_dinotrust_config-digits aid [] = tt
  ids_from_dinotrust_config-digits aid (blob ∷ blobs) =
      All-or_ids (λ x. is_digits e x ≡ true) _ _
        (All-or_ids (λ x. is_digits e x ≡ true) _ _ (doc_digits aid (e.loads blob))
          (line_digits (find_owner_line blob)))
        (ids_from_dinotrust_config-digits aid blobs)
