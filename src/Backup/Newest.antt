-- ===== src/Backup/Newest.antt =====
-- The copy that is answered is there.
use dinomem.Prelude.{
  ℕ, zero, suc, ◌-◌, ◌≤◌, ◌≡◌, refl, sym, ap, ◌∙◌, inl, inr, Bool, true, false, some, List, [], ◌∷◌,
  ◌++◌, arith, Bool-cases, length-append_one, All, length, take,
}
use dinomem.Prelude.Text.{Text, text_eq, text_eq_iff, text_eq_refl}
use dinomem.Backup.{
  Dir, copy_name, is_copy, insert_name, sort_names, found, remove, old_ones, prune, copied, lookup,
  backup_file, text_lt,
}
use dinomem.Backup.Others.{copy_name-is_copy, lookup-unlink_all, All-sort_names, All-take}

text_lt_irreflexive : (s : Text) → text_lt s s ≡ false
unfolding text_lt
text_lt_irreflexive [] = refl
text_lt_irreflexive (c ∷ s) = ground (arith, text_lt_irreflexive s)

text_lt_asymmetric : (s t : Text) → text_lt s t ≡ true → text_lt t s ≡ false
unfolding text_lt
text_lt_asymmetric [] [] h = refl
text_lt_asymmetric [] (d ∷ t) h = refl
text_lt_asymmetric (c ∷ s) [] h = cc
text_lt_asymmetric (c ∷ s) (d ∷ t) h = ground (arith, text_lt_asymmetric s t)

abbrev IsBefore : Text → Text → Type 0
IsBefore n m = text_lt m n ≡ true

-- A name behind all others is put at the end.
insert_name_last : (n : Text) (l : List Text) → All (IsBefore n) l → insert_name n l ≡ l ++ (n ∷ [])
unfolding insert_name
insert_name_last n [] h = refl
insert_name_last n (m ∷ l) (h, hs) = rw h (ap (λ r. m ∷ r) (insert_name_last n l hs))

insert_name-append :
    (x n : Text) (l : List Text)
    → text_lt x n ≡ true
    → insert_name x (l ++ (n ∷ [])) ≡ insert_name x l ++ (n ∷ [])
unfolding insert_name
insert_name-append x n [] h = rw (text_lt_asymmetric x n h) refl
insert_name-append x n (m ∷ l) h = elim (Bool-cases (text_lt m x)) [
  | inl e ↦ rw e (ap (λ r. m ∷ r) (insert_name-append x n l h))
  | inr k ↦ rw k refl
]

sort_names-append :
    (n : Text) (l : List Text)
    → All (IsBefore n) l
    → sort_names (l ++ (n ∷ [])) ≡ sort_names l ++ (n ∷ [])
unfolding sort_names
sort_names-append n [] h = unfold insert_name in refl
sort_names-append n (x ∷ l) (h, hs) =
    ap (λ r. insert_name x r) (sort_names-append n l hs) ∙ insert_name-append x n (sort_names l) h

take-append_short :
    (k : ℕ) (l : List Text) (n : Text) → k ≤ length l → take k (l ++ (n ∷ [])) ≡ take k l
take-append_short zero l n h = refl
take-append_short (suc k) [] n h = absurd (omega arith)
take-append_short (suc k) (x ∷ l) n h = ap (λ r. x ∷ r) (take-append_short k l n (omega arith))

-- Every other backup that the pattern finds has an earlier name.
abbrev pub IsNewest : Text → Text → Dir → Type 0
IsNewest stem n dir =
    All (λ e. is_copy stem e.0 ≡ true → text_eq e.0 n ≡ false → text_lt e.0 n ≡ true) dir

found-remove :
    (stem n : Text) (dir : Dir) → IsNewest stem n dir → All (IsBefore n) (found stem (remove n dir))
unfolding found remove
found-remove stem n [] h = tt
found-remove stem n ((m, content) ∷ dir) (h, hs) = elim (Bool-cases (text_eq m n)) [
  | inl e ↦ rw e (found-remove stem n dir hs)
  | inr k ↦ rw k (elim (Bool-cases (is_copy stem m)) [
    | inl c ↦ rw c (h c k, found-remove stem n dir hs)
    | inr c ↦ rw c (found-remove stem n dir hs)
  ])
]

found-append_own :
    (stem n content : Text) (dir : Dir)
    → is_copy stem n ≡ true
    → found stem (dir ++ ((n, content) ∷ [])) ≡ found stem dir ++ (n ∷ [])
unfolding found
found-append_own stem n content [] h = rw h refl
found-append_own stem n content ((m, c) ∷ dir) h = elim (Bool-cases (is_copy stem m)) [
  | inl e ↦ rw e (ap (λ r. m ∷ r) (found-append_own stem n content dir h))
  | inr k ↦ rw k (found-append_own stem n content dir h)
]

lookup-append_own :
    (n content : Text) (dir : Dir) → lookup n (remove n dir ++ ((n, content) ∷ [])) ≡ some content
unfolding lookup remove
lookup-append_own n content [] = rw (text_eq_refl n) refl
lookup-append_own n content ((m, c) ∷ dir) = elim (Bool-cases (text_eq m n)) [
  | inl e ↦ rw e (lookup-append_own n content dir)
  | inr k ↦ rw k (rw k (lookup-append_own n content dir))
]

before_apart : (n : Text) (l : List Text) → All (IsBefore n) l → All (λ m. text_eq n m ≡ false) l
before_apart n [] h = tt
before_apart n (m ∷ l) (h, hs) = (apart, before_apart n l hs)
  where
    apart : text_eq n m ≡ false
    apart = elim (Bool-cases (text_eq n m)) [
      | inl e ↦
          e ∙ (sym h ∙ (ap (λ r. text_lt m r) ((text_eq_iff n m).0 e) ∙ text_lt_irreflexive m))
      | inr k ↦ k
    ]

-- None of the copies that are too old is the newest.
olds-IsBefore :
    (n : Text) (l : List Text)
    → All (IsBefore n) l
    → All (IsBefore n) (old_ones (sort_names (l ++ (n ∷ []))))
unfolding old_ones
olds-IsBefore n l h =
    rw (sort_names-append n l h, length-append_one (sort_names l) n)
      (rw (take-append_short (suc (length (sort_names l)) - 10) (sort_names l) n (omega arith)) (
        All-take (IsBefore n) (suc (length (sort_names l)) - 10) (sort_names l)
          (All-sort_names (IsBefore n) l h)))

-- Where every other copy that the pattern finds has an earlier name, the copy that is made is there with the
-- content of the file, however many there are and whichever can be removed.
pub backup_file-newest :
    (can_unlink : Text → Bool) (stamp stem content : Text) (dir : Dir)
    → IsNewest stem (copy_name stem stamp) dir
    → let r = backup_file can_unlink true stamp stem (some content) dir in
      (r.0 ≡ some (copy_name stem stamp)) × (lookup (copy_name stem stamp) r.1 ≡ some content)
unfolding backup_file prune copied
backup_file-newest can_unlink stamp stem content dir h =
    (refl, lookup-unlink_all can_unlink n _ _ olds_apart ∙ lookup-append_own n content dir)
  where
    n : Text
    n = copy_name stem stamp

    olds_apart :
        All
          (λ m. text_eq n m ≡ false)
          (old_ones (sort_names (found stem (remove n dir ++ ((n, content) ∷ [])))))
    olds_apart =
        rw (found-append_own stem n content (remove n dir) (copy_name-is_copy stem stamp)) (
          before_apart n _
            (olds-IsBefore n (found stem (remove n dir)) (found-remove stem n dir h)))
