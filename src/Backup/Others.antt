-- ===== src/Backup/Others.antt =====
-- What a backup does to the other files of the directory.
use mathlib.Core.List.{append_assoc}
use dinomem.Prelude.{
  ℕ, zero, suc, ◌≡◌, refl, sym, ap, ◌∙◌, inl, inr, Bool, true, false, ◌||◌, Option, none, some,
  List, [], ◌∷◌, ◌++◌, arith, Bool-cases, All, take, if◌then◌else◌,
}
use dinomem.Prelude.Text.{Text, codes, text_eq, text_eq_iff, strip_prefix}
use dinomem.Backup.{
  Dir, bak, copy_name, ends_bak, is_copy, insert_name, sort_names, found, remove, unlink_all,
  old_ones, prune, copied, lookup, backup_file, text_lt,
}

pub strip_prefix-append : (p s : Text) → strip_prefix p (p ++ s) ≡ some s
unfolding strip_prefix
strip_prefix-append [] s = refl
strip_prefix-append (c ∷ p) s = ground (arith, strip_prefix-append p s)

ends_bak-append : (s : Text) → ends_bak (s ++ bak) ≡ true
unfolding ends_bak text_eq
ends_bak-append [] = refl
ends_bak-append (c ∷ s) = rw (ends_bak-append s) (or_true (text_eq (c ∷ (s ++ bak)) bak))
  where
    or_true : (b : Bool) → b || true ≡ true
    or_true true = refl
    or_true false = refl

-- The name of a copy is found.
pub copy_name-is_copy : (stem stamp : Text) → is_copy stem (copy_name stem stamp) ≡ true
unfolding is_copy copy_name
copy_name-is_copy stem stamp =
    rw (sym (append_assoc stem (codes ".") (stamp ++ bak)))
      (rw (strip_prefix-append (stem ++ codes ".") (stamp ++ bak)) (ends_bak-append stamp))

pub lookup-remove :
    (name n : Text) (dir : Dir) → text_eq n name ≡ false → lookup n (remove name dir) ≡ lookup n dir
unfolding lookup remove
lookup-remove name n [] h = refl
lookup-remove name n ((m, content) ∷ dir) h = elim (Bool-cases (text_eq m name)) [
  | inl e ↦ rw e (rw (apart e) (lookup-remove name n dir h))
  | inr k ↦ rw k (ap (λ r. if text_eq m n then some content else r) (lookup-remove name n dir h))
]
  where
    both : text_eq m n ≡ true → text_eq m name ≡ true → text_eq n name ≡ true
    both f e = (text_eq_iff n name).1 (sym ((text_eq_iff m n).0 f) ∙ (text_eq_iff m name).0 e)

    apart : text_eq m name ≡ true → text_eq m n ≡ false
    apart e = elim (Bool-cases (text_eq m n)) [ inl f ↦ f ∙ (sym (both f e) ∙ h) | inr f ↦ f ]

pub lookup-unlink_all :
    (can_unlink : Text → Bool) (n : Text) (ns : List Text) (dir : Dir)
    → All (λ m. text_eq n m ≡ false) ns
    → lookup n (unlink_all can_unlink ns dir) ≡ lookup n dir
unfolding unlink_all
lookup-unlink_all can_unlink n [] dir h = refl
lookup-unlink_all can_unlink n (m ∷ ns) dir (h, hs) =
    lookup-unlink_all can_unlink n ns _ hs ∙ step (can_unlink m)
  where
    step : (b : Bool) → lookup n (if b then remove m dir else dir) ≡ lookup n dir
    step true = lookup-remove m n dir h
    step false = refl

All-insert_name {ℓ} :
    (P : Text → Type ℓ) (x : Text) (l : List Text) → P x → All P l → All P (insert_name x l)
unfolding insert_name
All-insert_name P x [] h hs = (h, tt)
All-insert_name P x (y ∷ l) h (k, hs) = step (text_lt y x) (All-insert_name P x l h hs)
  where
    step :
        (b : Bool) → All P (insert_name x l) → All P (if b then y ∷ insert_name x l else x ∷ y ∷ l)
    step true r = (k, r)
    step false r = (h, (k, hs))

-- Whatever holds for the names of a list holds for these in order.
pub All-sort_names {ℓ} : (P : Text → Type ℓ) (l : List Text) → All P l → All P (sort_names l)
unfolding sort_names
All-sort_names P [] h = h
All-sort_names P (x ∷ l) (h, hs) = All-insert_name P x (sort_names l) h (All-sort_names P l hs)

-- It holds for a beginning of the list.
pub All-take {ℓ} : (P : Text → Type ℓ) (k : ℕ) (l : List Text) → All P l → All P (take k l)
All-take P zero l h = tt
All-take P (suc k) [] h = tt
All-take P (suc k) (x ∷ l) (h, hs) = (h, All-take P k l hs)

found-All : (stem : Text) (dir : Dir) → All (λ m. is_copy stem m ≡ true) (found stem dir)
unfolding found
found-All stem [] = tt
found-All stem ((n, content) ∷ dir) = elim (Bool-cases (is_copy stem n)) [
  | inl e ↦ rw e (e, found-All stem dir)
  | inr k ↦ rw k (found-All stem dir)
]

pub lookup-append_other :
    (n name content : Text) (dir : Dir)
    → text_eq name n ≡ false
    → lookup n (dir ++ ((name, content) ∷ [])) ≡ lookup n dir
unfolding lookup
lookup-append_other n name content [] h = rw h refl
lookup-append_other n name content ((m, c) ∷ dir) h =
    ap (λ r. if text_eq m n then some c else r) (lookup-append_other n name content dir h)

-- A file whose name the pattern of the backups of `stem` does not find is as before.
pub backup_file-others :
    (can_unlink : Text → Bool) (can_copy : Bool) (stamp stem : Text) (source : Option Text)
    (dir : Dir) (n : Text)
    → is_copy stem n ≡ false
    → lookup n (backup_file can_unlink can_copy stamp stem source dir).1 ≡ lookup n dir
unfolding backup_file prune copied old_ones
backup_file-others can_unlink can_copy stamp stem none dir n h = refl
backup_file-others can_unlink false stamp stem (some content) dir n h = refl
backup_file-others can_unlink true stamp stem (some content) dir n h =
    lookup-unlink_all can_unlink n _ _ olds_apart
    ∙ lookup-append_other n name content (remove name dir)
        (apart name (copy_name-is_copy stem stamp))
    ∙ lookup-remove name n dir (apart_back name (copy_name-is_copy stem stamp))
  where
    name : Text
    name = copy_name stem stamp

    same : (m : Text) → is_copy stem m ≡ true → m ≡ n → true ≡ false
    same m k e = sym k ∙ (ap (λ r. is_copy stem r) e ∙ h)

    apart : (m : Text) → is_copy stem m ≡ true → text_eq m n ≡ false
    apart m k = elim (Bool-cases (text_eq m n)) [
      | inl e ↦ e ∙ same m k ((text_eq_iff m n).0 e)
      | inr f ↦ f
    ]

    apart_back : (m : Text) → is_copy stem m ≡ true → text_eq n m ≡ false
    apart_back m k = elim (Bool-cases (text_eq n m)) [
      | inl e ↦ e ∙ same m k (sym ((text_eq_iff n m).0 e))
      | inr f ↦ f
    ]

    all_apart :
        (l : List Text) → All (λ m. is_copy stem m ≡ true) l → All (λ m. text_eq n m ≡ false) l
    all_apart [] hs = tt
    all_apart (m ∷ l) (k, hs) = (apart_back m k, all_apart l hs)

    olds_apart :
        All
          (λ m. text_eq n m ≡ false)
          (old_ones (sort_names (found stem (copied name content dir))))
    olds_apart = all_apart _ (
        All-take (λ m. is_copy stem m ≡ true) _ (sort_names (found stem (copied name content dir)))
          (All-sort_names (λ m. is_copy stem m ≡ true) (found stem (copied name content dir))
            (found-All stem (copied name content dir))))
