-- ===== src/Cleanup/Expiring.antt =====
-- The second pass of `cleanup` in procedures/memory_cleanup.py: the lines with a tag [expires:...] whose day is
-- past.
pub mod Stops
use dinomem.Prelude.{
  ℕ, suc, ◌+◌, ◌*◌, Bool, true, false, ◌&&◌, ◌||◌, not, Option, none, some, List, [], ◌∷◌, ◌++◌,
  ltb, leb, ◌==◌, length, filter, any, take, drop, map, if◌then◌else◌,
}
use dinomem.Prelude.Text.{
  Text, codes, text_eq, lstrip, strip, starts_with, strip_prefix, contains, split, join,
}
use dinomem.Dates.{Date, strptime, toordinal}
use dinomem.Retention.Entry.{newline}
use dinomem.Retention.Run.{Directory}

unfoldable pub is_digit : ℕ → Bool
is_digit c = leb b'0' c && leb c b'9'

-- `\d{4}-\d{2}-\d{2}\]` in front of a text, by its group
date_in_front : Text → Option Text
unfolding is_digit
date_in_front (a ∷ b ∷ c ∷ d ∷ s ∷ e ∷ f ∷ t ∷ g ∷ h ∷ close ∷ rest) =
    if is_digit a
      && is_digit b
      && is_digit c
      && is_digit d
      && s == b'-'
      && is_digit e
      && is_digit f
      && t == b'-'
      && is_digit g
      && is_digit h
      && close == b']'
    then some (a ∷ b ∷ c ∷ d ∷ s ∷ e ∷ f ∷ t ∷ g ∷ h ∷ [])
    else none
date_in_front _ = none

abbrev date_behind : Option Text → Option Text
date_behind none = none
date_behind (some s) = date_in_front s

abbrev or_found : Option Text → Option Text → Option Text
or_found none d = d
or_found (some c) d = some c

-- `expires_pattern.search(line)`, by its group
unfoldable pub find_expiry : Text → Option Text
unfolding date_in_front
find_expiry [] = none
find_expiry (c ∷ s) =
    or_found (date_behind (strip_prefix (codes "[expires:") (c ∷ s))) (find_expiry s)

-- Whether the line is dropped; none is the ValueError of `strptime`.
abbrev pub is_past : ℕ → Option ℕ → Option Bool
is_past today none = none
is_past today (some day) = some (ltb day today)

abbrev ordinal : Option Date → Option ℕ
ordinal none = none
ordinal (some d) = some (toordinal d)

abbrev pub expired_by : ℕ → Option Text → Option Bool
expired_by today none = some false
expired_by today (some s) = is_past today (ordinal (strptime s))

unfoldable pub is_expired : ℕ → Text → Option Bool
is_expired today line = expired_by today (find_expiry line)

abbrev pub keep_unless : Text → Option Bool → Option (List Text) → Option (List Text)
keep_unless line none rest = none
keep_unless line (some b) none = none
keep_unless line (some b) (some lines) = some (if b then lines else line ∷ lines)

-- the loop over the lines of a file in the second pass; none where it raises
unfoldable pub unexpired : ℕ → List Text → Option (List Text)
unexpired today [] = some []
unexpired today (line ∷ lines) = keep_unless line (is_expired today line) (unexpired today lines)

-- The second pass: the files, and whether it runs to its end. Where it raises, the files before are
-- written and the others are not.
abbrev expire_rest :
    Text → Text → Directory → Option (List Text) → Directory × Bool → Directory × Bool
expire_rest name content files none r = ((name, content) ∷ files, false)
expire_rest name content files (some lines) (rest, ok) =
    ((name, join (newline ∷ []) lines) ∷ rest, ok)

unfoldable pub expiry_pass : ℕ → Directory → Directory × Bool
expiry_pass today [] = ([], true)
expiry_pass today ((name, content) ∷ files) =
    expire_rest name content files (unexpired today (split newline content))
      (expiry_pass today files)
