-- ===== src/CommitReason/Tests.antt =====
-- Two reasons, of which the second is given with other spaces.
use dinomem.Prelude.{◌≡◌, refl, true, some, List, [], ◌∷◌}
use dinomem.Prelude.Text.{
  Text, codes, text_eq, is_space, strip, lstrip, rstrip, rstrip_cons, cons_first, join,
}
use dinomem.Prelude.Text.Lines.{splitlines, ends_line}
use dinomem.CommitReason.{words, bounded, clean_subject, existing_hints, hint_text, drop_reason}

abbrev one_hint : List Text
one_hint = codes "fix: a" ∷ []

in_one_line : clean_subject (codes " add:\n b ") ≡ codes "add: b"
unfolding clean_subject bounded words join is_space cons_first
in_one_line = refl

put_behind :
    drop_reason true true (codes "add:\tb") (some (codes "fix: a\n"))
    ≡ (true, some (codes "fix: a\nadd: b\n"))
unfolding drop_reason clean_subject bounded words join is_space cons_first existing_hints hint_text
    splitlines ends_line strip lstrip rstrip rstrip_cons text_eq
put_behind = refl
