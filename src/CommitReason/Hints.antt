-- ===== src/CommitReason/Hints.antt =====
-- The file of the hints.
use dinomem.Prelude.{
  ◌≤◌, ◌≡◌, ◌⊎◌, Bool, true, false, Option, none, some, List, [], ◌∷◌, ◌++◌, any, All, length,
}
use dinomem.Prelude.Text.{Text, text_eq}
use dinomem.CommitReason.{hint_text}
use dinomem.CommitReason.Subject.{IsSubject}

-- The file with these hints: there is none without a hint.
abbrev pub hint_file : List Text → Option Text
hint_file [] = none
hint_file (l ∷ ls) = some (hint_text (l ∷ ls))

-- At most twenty subjects.
abbrev pub IsHints : List Text → Type 0
IsHints ls = (length ls ≤ 20) × All IsSubject ls

-- What a drop makes of the hints: nothing, nothing that is missed, or the subject is the new last one.
abbrev pub Dropped : Bool → Text → List Text → Bool × Option Text → Type 0
Dropped can_write subject ls r =
    ((r ≡ (false, hint_file ls))
      × ((subject ≡ []) ⊎ ((can_write ≡ false) × (any (text_eq subject) ls ≡ false))))
    ⊎ (((r ≡ (true, hint_file ls)) × ((any (text_eq subject) ls ≡ true) ⊎ (20 ≤ length ls)))
        ⊎ ((r ≡ (true, hint_file (ls ++ (subject ∷ []))))
            × ((any (text_eq subject) ls ≡ false) × IsHints (ls ++ (subject ∷ [])))))
