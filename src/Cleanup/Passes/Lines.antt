-- ===== src/Cleanup/Passes/Lines.antt =====
-- Lines of a file and files of the archive: joining what was split, a line in a joined text, and texts that
-- only grow.
use dinomem.Prelude.{
  ℕ, ◌≡◌, refl, ap, sym, ◌∙◌, inl, inr, true, false, List, [], ◌∷◌, ◌++◌, arith, ◌==◌, ==_iff,
  Bool-cases, if◌then◌else◌, any,
}
use dinomem.Prelude.Text.{
  Text, text_eq, text_eq_iff, text_eq_refl, cons_first, starts_with, contains, split, join,
}
use dinomem.Prelude.Text.Lines.{contains-append}
use dinomem.Retention.Run.{Directory}
use dinomem.Cleanup.Passes.{append_file}

join-cons_first :
    (sep c : ℕ) (ls : List Text) → join (sep ∷ []) (cons_first c ls) ≡ c ∷ join (sep ∷ []) ls
unfolding join cons_first
join-cons_first sep c [] = refl
join-cons_first sep c (l ∷ []) = refl
join-cons_first sep c (l ∷ m ∷ ls) = refl

IsCons : List Text → Type 0
IsCons [] = ⊥
IsCons (l ∷ ls) = Unit

cons_first-IsCons : (c : ℕ) (ls : List Text) → IsCons (cons_first c ls)
unfolding IsCons cons_first
cons_first-IsCons c [] = tt
cons_first-IsCons c (l ∷ ls) = tt

split-IsCons : (sep : ℕ) (s : Text) → IsCons (split sep s)
unfolding IsCons split
split-IsCons sep [] = tt
split-IsCons sep (c ∷ s) = elim (Bool-cases (c == sep)) [
  | inl e ↦ rw e tt
  | inr n ↦ rw n (cons_first-IsCons c (split sep s))
]

join-cons_empty :
    (sep : ℕ) (ls : List Text) → IsCons ls → join (sep ∷ []) ([] ∷ ls) ≡ sep ∷ join (sep ∷ []) ls
unfolding IsCons join
join-cons_empty sep [] h = absurd h
join-cons_empty sep (l ∷ ls) h = refl

-- `sep.join(s.split(sep))` is `s`.
pub join-split : (sep : ℕ) (s : Text) → join (sep ∷ []) (split sep s) ≡ s
unfolding split
join-split sep [] = unfold join in refl
join-split sep (c ∷ s) = elim (Bool-cases (c == sep)) [
  | inl e ↦ rw e (
      join-cons_empty sep (split sep s) (split-IsCons sep s)
      ∙ (ap (λ r. sep ∷ r) (join-split sep s) ∙ ap (λ x. x ∷ s) (sym ((==_iff c sep).0 e))))
  | inr n ↦ rw n (join-cons_first sep c (split sep s) ∙ ap (λ r. c ∷ r) (join-split sep s))
]

starts_with-append : (p s b : Text) → starts_with p s ≡ true → starts_with p (s ++ b) ≡ true
unfolding starts_with
starts_with-append [] s b h = refl
starts_with-append (x ∷ p) [] b h = absurd (cc h)
starts_with-append (x ∷ p) (y ∷ s) b h = ground (arith, starts_with-append p s b)

contains_start : (p s : Text) → starts_with p s ≡ true → contains p s ≡ true
unfolding contains
contains_start p [] h = h
contains_start p (c ∷ s) h = rw h

-- A part of a text is a part of a longer one.
pub contains-append_right : (p s b : Text) → contains p s ≡ true → contains p (s ++ b) ≡ true
unfolding contains
contains-append_right p [] b h = contains_start p b (starts_with-append p [] b h)
contains-append_right p (c ∷ s) b h = elim (Bool-cases (starts_with p (c ∷ s))) [
  | inl e ↦ rw (starts_with-append p (c ∷ s) b e)
  | inr n ↦ ground (arith, contains-append_right p s b)
]

pub contains-append_left : (p a s : Text) → contains p s ≡ true → contains p (a ++ s) ≡ true
unfolding contains
contains-append_left p [] s h = h
contains-append_left p (c ∷ a) s h = ground (arith, contains-append_left p a s)

contains_self : (p : Text) → contains p p ≡ true
contains_self p = rw (append_nil p) at (contains-append p [] [])
  where
    append_nil : (s : Text) → s ++ [] ≡ s
    append_nil [] = refl
    append_nil (c ∷ s) = ap (λ r. c ∷ r) (append_nil s)

-- A line is a part of the lines joined.
pub contains-join :
    (sep l : Text) (ls : List Text) → any (text_eq l) ls ≡ true → contains l (join sep ls) ≡ true
unfolding join
contains-join sep l [] h = absurd (cc h)
contains-join sep l (m ∷ []) h = rw ((text_eq_iff l m).0 (ground arith)) (contains_self m)
contains-join sep l (m ∷ n ∷ ls) h = elim (Bool-cases (text_eq l m)) [
  | inl e ↦ rw ((text_eq_iff l m).0 e) (contains-append_right m m _ (contains_self m))
  | inr d ↦
      contains-append_left l m _
        (contains-append_left l sep _ (contains-join sep l (n ∷ ls) (rw d at h)))
]

-- What a file of the archive holds; nothing where it is not there.
unfoldable pub archived : Text → Directory → Text
archived name [] = []
archived name ((n, c) ∷ files) =
    let rest = archived name files in if text_eq n name then c else rest

pub archived-append_file :
    (name s : Text) (files : Directory)
    → archived name (append_file name s files) ≡ archived name files ++ s
unfolding archived append_file
archived-append_file name s [] = rw (text_eq_refl name)
archived-append_file name s ((n, c) ∷ files) = elim (Bool-cases (text_eq n name)) [
  | inl e ↦ rw (e, e)
  | inr d ↦ rw (d, d) (archived-append_file name s files)
]

archived-append_file_ne :
    (name b s : Text) (files : Directory)
    → text_eq b name ≡ false
    → archived name (append_file b s files) ≡ archived name files
unfolding archived append_file
archived-append_file_ne name b s [] d = rw d
archived-append_file_ne name b s ((n, c) ∷ files) d = elim (Bool-cases (text_eq n b)) [
  | inl e ↦ rw (e, (text_eq_iff n b).0 e, d)
  | inr e ↦ rw e (elim (Bool-cases (text_eq n name)) [
    | inl k ↦ rw k
    | inr k ↦ rw k (archived-append_file_ne name b s files d)
  ])
]

-- No part of the archive gets lost.
pub append_file-grows :
    (l name b s : Text) (files : Directory)
    → contains l (archived name files) ≡ true
    → contains l (archived name (append_file b s files)) ≡ true
append_file-grows l name b s files h = elim (Bool-cases (text_eq b name)) [
  | inl e ↦
      rw ((text_eq_iff b name).0 e, archived-append_file name s files)
        (contains-append_right l (archived name files) s h)
  | inr d ↦ rw (archived-append_file_ne name b s files d) h
]
