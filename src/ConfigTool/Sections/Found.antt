-- ===== src/ConfigTool/Sections/Found.antt =====
-- What `_find_section` finds in a list of lines.
use dinomem.Prelude.{
  ℕ, suc, ◌+◌, ◌≡◌, refl, ap, sym, ◌∙◌, inl, inr, Bool, true, false, Option, none, some, List, [],
  ◌∷◌, ◌++◌, length, take, drop, All, arith, Bool-cases, Option-cases, take-append-drop, drop-drop,
}
use dinomem.Prelude.Text.{Text, codes, starts_with}
use dinomem.ConfigTool.Sections.{
  section_name, starts_section, is_section_boundary, first_index, or_else, find_section,
}

-- The lines fall into those before the section, its first line, the others of it, and those behind it;
-- the section goes from the line `start` up to the line `end`.
pub record Cut (is_alpha : ℕ → Bool) (section_key : Text) (lines : List Text) (start end : ℕ)
    : Type 0 where
  pub before : List Text
  pub first : Text
  pub inner : List Text
  pub behind : List Text
  pub whole : lines ≡ before ++ (first ∷ (inner ++ behind))
  pub is_before : take start lines ≡ before
  pub is_behind : drop end lines ≡ behind
  pub starts : starts_section (section_name section_key) first ≡ true
  pub earlier : All (λ l. starts_section (section_name section_key) l ≡ false) before
  pub within : All (λ l. is_section_boundary is_alpha l ≡ false) inner

-- the lines before the first that passes, and that line
pub first_index-some :
    (p : Text → Bool) (ls : List Text) (i : ℕ)
    → first_index p ls ≡ some i
    → (before : List Text) × (l : Text) × (behind : List Text) × (ls ≡ before ++ (l ∷ behind))
      × (take i ls ≡ before)
      × (drop (suc i) ls ≡ behind)
      × (p l ≡ true)
      × All (λ x. p x ≡ false) before
unfolding first_index
first_index-some p [] i h = absurd (cc h)
first_index-some p (x ∷ xs) i h = elim (Bool-cases (p x)) [
  | inl y ↦ let e : i ≡ 0 = ground (arith, y) in ([], x, xs, refl, rw e, rw e, y, tt)
  | inr n ↦ elim (Option-cases (first_index p xs)) [
    | inl none_there ↦ absurd (ground (arith, n, none_there))
    | inr (j, e) ↦
        let s : i ≡ suc j = ground (arith, n, e) in
        let (before, l, behind, whole, t, d, y, a) = first_index-some p xs j e in
        (x ∷ before, l, behind, ap (λ r. x ∷ r) whole, rw s (ap (λ r. x ∷ r) t), rw s d, y, (n, a))
  ]
]

-- No line up to the boundary passes.
up_to_boundary :
    (q : Text → Bool) (ls : List Text)
    → All (λ x. q x ≡ false) (take (or_else (first_index q ls) (length ls)) ls)
unfolding first_index
up_to_boundary q [] = tt
up_to_boundary q (x ∷ xs) = elim (Bool-cases (q x)) [
  | inl y ↦ rw y tt
  | inr n ↦ rw n (next_line (first_index q xs) n (up_to_boundary q xs))
]
  where
    next_line :
        (o : Option ℕ)
        → q x ≡ false
        → All (λ y. q y ≡ false) (take (or_else o (length xs)) xs)
        → All
            (λ y. q y ≡ false)
            (take
              (or_else
                (elim o as (λ _. Option ℕ) [ none ↦ none | some i ↦ some (suc i) ])
                (suc (length xs)))
              (x ∷ xs))
    next_line none n a = (n, a)
    next_line (some i) n a = (n, a)

drop-suc_add :
    (i n : ℕ) (ls behind : List Text)
    → drop (suc i) ls ≡ behind
    → drop (suc i + n) ls ≡ drop n behind
drop-suc_add i n ls behind e = sym (drop-drop (suc i) n ls) ∙ ap (drop n) e

-- A section that is found begins with a line that starts with the key, the first that does, and runs to
-- the line before the next boundary or to the end.
pub find_section-Cut :
    (is_alpha : ℕ → Bool) (lines : List Text) (section_key : Text) (start end : ℕ)
    → find_section is_alpha lines section_key ≡ some (start, end)
    → Cut is_alpha section_key lines start end
unfolding find_section
find_section-Cut is_alpha lines section_key start end h =
    elim (Option-cases (first_index (starts_section (section_name section_key)) lines)) [
      | inl e ↦ absurd (cc (rw (e, find_section) at h))
      | inr (i, e) ↦
          let (before, l, behind, whole, t, d, y, a) =
            first_index-some (starts_section (section_name section_key)) lines i e in
          let n =
            or_else (first_index (is_section_boundary is_alpha) (drop (suc i) lines))
              (length (drop (suc i) lines)) in
          let k : some (i, suc i + n) ≡ some (start, end) = rw (e, find_section) at h in
          let at_start : start ≡ i = ground (arith, k) in
          let at_end : end ≡ suc i + n = ground (arith, k) in
          record {
            before = before;
            first = l;
            inner = take n behind;
            behind = drop n behind;
            whole = whole ∙ ap (λ r. before ++ (l ∷ r)) (sym (take-append-drop n behind));
            is_before = rw at_start t;
            is_behind = rw at_end (drop-suc_add i n lines behind d);
            starts = y;
            earlier = a;
            within =
                rw (sym d) (up_to_boundary (is_section_boundary is_alpha) (drop (suc i) lines));
          }
    ]

starts_with-append_self : (p s : Text) → starts_with p (p ++ s) ≡ true
unfolding starts_with
starts_with-append_self [] s = refl
starts_with-append_self (c ∷ p) s = ground (arith, starts_with-append_self p s)

-- A heading of which the key is only the beginning is taken for the section: `github` finds
-- `## github_push`, if that comes first.
pub find_section-longer_heading :
    (is_alpha : ℕ → Bool) (section_key rest : Text) (lines : List Text)
    → (end : ℕ) × (find_section is_alpha
          ((codes "## " ++ (section_name section_key ++ rest)) ∷ lines)
          section_key
        ≡ some (0, end))
unfolding find_section first_index starts_section
find_section-longer_heading is_alpha section_key rest lines =
    let key = section_name section_key in
    let e : starts_with (codes "## " ++ key) (codes "## " ++ (key ++ rest)) ≡ true =
      starts_with-append_self (codes "## " ++ key) rest in
    (
      suc 0 + or_else (first_index (is_section_boundary is_alpha) lines) (length lines),
      ground (arith, e),
    )
