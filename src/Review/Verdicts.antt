-- ===== src/Review/Verdicts.antt =====
-- `all_entries_valid` of procedures/memory_review.py.
use dinomem.Prelude.{
  ◌≡◌, Bool, true, false, ◌&&◌, ◌||◌, Option, none, some, List, [], ◌∷◌, ◌==◌, if◌then◌else◌, any,
  all, arith,
}
use dinomem.Prelude.Text.{Text, strip}
use dinomem.Prelude.Text.Lines.{splitlines}
use dinomem.Retention.Entry.{Verdict, valid, match_tag}

-- `s.lstrip("-")`
unfoldable pub lstrip_dashes : Text → Text
lstrip_dashes [] = []
lstrip_dashes (c ∷ s) = let rest = lstrip_dashes s in if c == b'-' then rest else c ∷ s

-- The verdict of one line. No tag of VERDICT_TAGS begins another, so the first that fits is the only one.
unfoldable pub line_verdict : Text → Option Verdict
line_verdict raw = match_tag (strip (lstrip_dashes (strip raw)))

-- the loop, with what it has seen
unfoldable pub scan_verdicts : Bool → List Text → Bool
scan_verdicts saw_tagged [] = saw_tagged
scan_verdicts saw_tagged (raw ∷ lines) =
    let next = scan_verdicts saw_tagged lines in
    let seen = scan_verdicts true lines in
    elim (line_verdict raw) [ none ↦ next | some v ↦ elim v [ valid ↦ seen | _ ↦ false ] ]

-- `all_entries_valid`
unfoldable pub all_entries_valid : Text → Bool
unfolding splitlines scan_verdicts
all_entries_valid reviewed_text = scan_verdicts false (splitlines reviewed_text)

abbrev pub is_tagged : Option Verdict → Bool
is_tagged (some _) = true
is_tagged none = false

-- valid, or no entry
abbrev pub is_valid_or_none : Option Verdict → Bool
is_valid_or_none (some valid) = true
is_valid_or_none (some _) = false
is_valid_or_none none = true

scan_lem :
    (saw : Bool) (lines : List Text)
    → scan_verdicts saw lines ≡ (
        (saw || any (λ l. is_tagged (line_verdict l)) lines)
        && all (λ l. is_valid_or_none (line_verdict l)) lines)
unfolding scan_verdicts
scan_lem saw [] = ground arith
scan_lem saw (raw ∷ lines) = ground (arith, scan_lem saw lines, scan_lem true lines)

-- The answer is true exactly when some line of the text has a tag and every line with a tag has [valid].
pub all_entries_valid_lem :
    (reviewed_text : Text)
    → all_entries_valid reviewed_text ≡ (
        any (λ l. is_tagged (line_verdict l)) (splitlines reviewed_text)
        && all (λ l. is_valid_or_none (line_verdict l)) (splitlines reviewed_text))
unfolding all_entries_valid
all_entries_valid_lem reviewed_text = scan_lem false (splitlines reviewed_text)
