-- ===== src/TeiBatch/Tests.antt =====
-- Batches of small lists.
use dinomem.Prelude.{ℕ, ◌*◌, ◌≡◌, refl, ap, List, [], ◌∷◌, ◌++◌, some}
use dinomem.TeiBatch.{batch_or, chunk_list, slices}

abbrev five : List ℕ
five = 1 ∷ 2 ∷ 3 ∷ 4 ∷ 5 ∷ []

two_and_two : chunk_list 32 five (some 2) ≡ (1 ∷ 2 ∷ []) ∷ (3 ∷ 4 ∷ []) ∷ (5 ∷ []) ∷ []
unfolding chunk_list slices batch_or
two_and_two = refl

abbrev embed : List ℕ → List ℕ
embed [] = []
embed (x ∷ xs) = x * 2 ∷ embed xs

embed-append : (xs ys : List ℕ) → embed (xs ++ ys) ≡ embed xs ++ embed ys
embed-append [] ys = refl
embed-append (x ∷ xs) ys = ap (λ r. x * 2 ∷ r) (embed-append xs ys)
