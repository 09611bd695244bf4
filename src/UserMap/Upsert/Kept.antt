-- ===== src/UserMap/Upsert/Kept.antt =====
-- What the managed block does to the rest of the text.
use dinomem.Prelude.{
  ◌≡◌, refl, sym, ap, ◌∙◌, inl, inr, Bool, true, false, not, Option, none, some, [], ◌∷◌, ◌++◌,
  ◌==◌, filter, if◌then◌else◌, Bool-cases,
}
use dinomem.Prelude.Text.{Text, codes}
use dinomem.Extract.Archive.{is_blank_text}
use dinomem.UserMap.Upsert.{
  end_marker, begin_marker, split_mark, blank_line, lstrip_newlines, rstrip_newline_cons,
  rstrip_newlines, appended, refreshed, with_newline, by_marks, upserted,
}

-- the text without its newlines
abbrev pub solid : Text → Text
solid s = filter (λ c. not (c == 10)) s

solid-append : (s t : Text) → solid (s ++ t) ≡ solid s ++ solid t
solid-append [] t = refl
solid-append (c ∷ s) t = elim (Bool-cases (c == 10)) [
  | inl e ↦ rw e (solid-append s t)
  | inr n ↦ rw n (ap (λ r. c ∷ r) (solid-append s t))
]

solid-lstrip : (s : Text) → solid (lstrip_newlines s) ≡ solid s
unfolding lstrip_newlines
solid-lstrip [] = refl
solid-lstrip (c ∷ s) = elim (Bool-cases (c == 10)) [
  | inl e ↦ rw e (solid-lstrip s)
  | inr n ↦ rw n (rw n refl)
]

solid-rstrip : (s : Text) → solid (rstrip_newlines s) ≡ solid s
unfolding rstrip_newlines
solid-rstrip [] = refl
solid-rstrip (c ∷ s) = first (rstrip_newlines s) (solid-rstrip s)
  where
    first : (r : Text) → solid r ≡ solid s → solid (rstrip_newline_cons c r) ≡ solid (c ∷ s)
    first [] e = elim (Bool-cases (c == 10)) [
      | inl q ↦ rw q e
      | inr q ↦ rw q (rw q (ap (λ r. c ∷ r) e))
    ]
    first (d ∷ r) e = elim (Bool-cases (c == 10)) [
      | inl q ↦ rw q e
      | inr q ↦ rw q (ap (λ r. c ∷ r) e)
    ]

solid-with_newline : (s : Text) → solid (with_newline s) ≡ solid s
unfolding with_newline
solid-with_newline [] = refl
solid-with_newline (c ∷ []) = elim (Bool-cases (c == 10)) [
  | inl q ↦ rw q (rw q refl)
  | inr q ↦ rw q (rw q refl)
]
solid-with_newline (c ∷ d ∷ s) = elim (Bool-cases (c == 10)) [
  | inl q ↦ rw q (solid-with_newline (d ∷ s))
  | inr q ↦ rw q (ap (λ r. c ∷ r) (solid-with_newline (d ∷ s)))
]

solid-appended :
    (block existing : Text) → solid (appended block existing) ≡ solid existing ++ solid block
unfolding appended
solid-appended block existing =
    let base = rstrip_newlines existing in
    solid-append base _
    ∙ ap (λ r. solid base ++ r) (behind base)
    ∙ ap (λ r. r ++ solid block) (solid-rstrip existing)
  where
    tail : solid (block ++ codes "\n") ≡ solid block
    tail = solid-append block (codes "\n") ∙ append_nil (solid block)
      where
        append_nil : (t : Text) → t ++ [] ≡ t
        append_nil [] = refl
        append_nil (c ∷ t) = ap (λ r. c ∷ r) (append_nil t)

    behind : (base : Text) → solid (blank_line base ++ (block ++ codes "\n")) ≡ solid block
    behind [] = tail
    behind (c ∷ base) = tail

solid-refreshed :
    (block pre post : Text)
    → solid (refreshed block pre post) ≡ solid pre ++ (solid block ++ solid post)
unfolding refreshed
solid-refreshed block pre post = trimmed (is_blank_text pre) ∙ parts
  where
    whole : Text
    whole = rstrip_newlines pre ++ (codes "\n\n" ++ (block ++ (10 ∷ lstrip_newlines post)))

    trimmed : (b : Bool) → solid (if b then lstrip_newlines whole else whole) ≡ solid whole
    trimmed true = solid-lstrip whole
    trimmed false = refl

    parts : solid whole ≡ solid pre ++ (solid block ++ solid post)
    parts =
        solid-append (rstrip_newlines pre) _
        ∙ ap (λ r. r ++ solid (block ++ (10 ∷ lstrip_newlines post))) (solid-rstrip pre)
        ∙ ap (λ r. solid pre ++ r)
            (solid-append block (10 ∷ lstrip_newlines post)
              ∙ ap (λ r. solid block ++ r) (solid-lstrip post))

-- What is outside the managed block: all of the text if a mark is missing, else what is in front of the first
-- beginning and behind the first end.
abbrev pub outside : Text → Option (Text × Text) → Option (Text × Text) → Text × Text
outside existing (some (pre, b)) (some (e, post)) = (pre, post)
outside existing none e = (existing, [])
outside existing (some b) none = (existing, [])

-- Up to newlines the new text is what stands in front of the managed region, the block, and what stands behind
-- it; a text that lacks one of the two marks is kept whole, with the block behind it.
pub upserted-outside :
    (block existing : Text)
    → solid (upserted block existing)
      ≡ solid
          (outside existing (split_mark begin_marker existing) (split_mark end_marker existing)).0
        ++ (solid block
            ++ solid
                (outside existing
                  (split_mark begin_marker existing)
                  (split_mark end_marker existing)).1)
unfolding upserted
upserted-outside block existing =
    solid-with_newline
      (by_marks block existing (split_mark begin_marker existing) (split_mark end_marker existing))
    ∙ marked (split_mark begin_marker existing) (split_mark end_marker existing)
  where
    append_nil : (t : Text) → t ++ [] ≡ t
    append_nil [] = refl
    append_nil (c ∷ t) = ap (λ r. c ∷ r) (append_nil t)

    whole : solid (appended block existing) ≡ solid existing ++ (solid block ++ [])
    whole =
        solid-appended block existing
        ∙ ap (λ r. solid existing ++ r) (sym (append_nil (solid block)))

    marked :
        (b e : Option (Text × Text))
        → solid (by_marks block existing b e)
          ≡ solid (outside existing b e).0 ++ (solid block ++ solid (outside existing b e).1)
    marked (some (pre, b)) (some (e, post)) = solid-refreshed block pre post
    marked none (some e) = whole
    marked none none = whole
    marked (some b) none = whole
