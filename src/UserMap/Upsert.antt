-- ===== src/UserMap/Upsert.antt =====
-- `upsert_user_md` of procedures/compile_user.py: the managed block in the text of USER.md, which is empty for
-- a file that is missing or cannot be read. The write replaces the file at once.
pub mod Kept
use dinomem.Prelude.{
  ℕ, Bool, true, false, ◌&&◌, Option, none, some, List, [], ◌∷◌, ◌++◌, ◌==◌, if◌then◌else◌,
}
use dinomem.Prelude.Text.{Text, codes, text_eq, strip, strip_prefix}
use dinomem.Extract.Archive.{is_blank_text}

-- `END`; the line of `BEGIN` has a dash that is no ASCII
abbrev pub end_marker : Text
end_marker = codes "<!-- END:dinomem-user-map -->"

abbrev pub begin_marker : Text
begin_marker =
    codes "<!-- BEGIN:dinomem-user-map (managed "
    ++ (0x2014 ∷ codes " do not edit between markers) -->")

-- what is in front of the first mark and behind it
unfoldable pub split_mark : Text → Text → Option (Text × Text)
split_mark mark [] = elim (strip_prefix mark []) [ none ↦ none | some rest ↦ some ([], rest) ]
split_mark mark (c ∷ s) = elim (strip_prefix mark (c ∷ s)) [
  | some rest ↦ some ([], rest)
  | none ↦ elim (split_mark mark s) [ none ↦ none | some (pre, post) ↦ some (c ∷ pre, post) ]
]

-- `s.lstrip("\n")`
unfoldable pub lstrip_newlines : Text → Text
lstrip_newlines [] = []
lstrip_newlines (c ∷ s) = let rest = lstrip_newlines s in if c == 10 then rest else c ∷ s

unfoldable pub rstrip_newline_cons : ℕ → Text → Text
rstrip_newline_cons c [] = if c == 10 then [] else c ∷ []
rstrip_newline_cons c (d ∷ s) = c ∷ d ∷ s

-- `s.rstrip("\n")`
unfoldable pub rstrip_newlines : Text → Text
unfolding rstrip_newline_cons
rstrip_newlines [] = []
rstrip_newlines (c ∷ s) = rstrip_newline_cons c (rstrip_newlines s)

abbrev pub blank_line : Text → Text
blank_line [] = []
blank_line (c ∷ base) = codes "\n\n"

-- the text with a block at its end
unfoldable pub appended : Text → Text → Text
appended block existing =
    let base = rstrip_newlines existing in base ++ (blank_line base ++ (block ++ codes "\n"))

-- the text with the block in the place of the marked region
unfoldable pub refreshed : Text → Text → Text → Text
refreshed block pre post =
    let whole = rstrip_newlines pre ++ (codes "\n\n" ++ (block ++ (10 ∷ lstrip_newlines post))) in
    if is_blank_text pre then lstrip_newlines whole else whole

-- `s + "\n"`, unless it ends so
unfoldable pub with_newline : Text → Text
with_newline [] = 10 ∷ []
with_newline (c ∷ []) = if c == 10 then c ∷ [] else c ∷ 10 ∷ []
with_newline (c ∷ d ∷ s) = c ∷ with_newline (d ∷ s)

abbrev pub by_marks : Text → Text → Option (Text × Text) → Option (Text × Text) → Text
by_marks block existing (some (pre, b)) (some (e, post)) = refreshed block pre post
by_marks block existing none e = appended block existing
by_marks block existing (some b) none = appended block existing

-- `new_text`
unfoldable pub upserted : Text → Text → Text
upserted block existing =
    with_newline
      (by_marks block existing (split_mark begin_marker existing) (split_mark end_marker existing))

pub data Upserted : Type 0 where
  unchanged dry_run written error : Upserted

-- `upsert_user_md`: the answer and the file; the flag tells whether a write succeeds
unfoldable pub upsert_user_md : Bool → Bool → Text → Text → Upserted × Text
upsert_user_md writable dry block existing =
    if text_eq (upserted block existing) existing
    then (unchanged, existing)
    else if dry
    then (dry_run, existing)
    else if writable
    then (written, upserted block existing)
    else (error, existing)
