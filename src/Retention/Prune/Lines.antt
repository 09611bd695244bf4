-- ===== src/Retention/Prune/Lines.antt =====
-- The loop of `prune_file` over the lines, against filters of the lines.
use mathlib.Core.List.{append_assoc, append-nil}
use dinomem.Prelude.{◌+◌, ◌≡◌, sym, true, not, List, [], ◌∷◌, ◌++◌, arith, filter, count}
use dinomem.Prelude.Text.{Text}
use dinomem.Retention.Entry.{line_is_entry, line_is_valid_entry}
use dinomem.Retention.Entry.Space.{is_dropped}
use dinomem.Retention.Prune.{Tally, tally, tally_line}

-- The loop keeps, in order, the lines that are not dropped, and counts the valid and the dropped.
pub record IsTally (t : Tally) (lines : List Text) (u : Tally) : Type 0 where
  pub kept_lines : u.kept_lines ≡ t.kept_lines ++ filter (λ l. not (is_dropped l)) lines
  pub valid_count : u.valid_count ≡ t.valid_count + count line_is_valid_entry lines
  pub removed : u.removed ≡ t.removed + count is_dropped lines

-- A line with a verdict tag is an entry.
valid_is_entry : (l : Text) → line_is_valid_entry l ≡ true → line_is_entry l ≡ true
unfolding line_is_valid_entry line_is_entry
valid_is_entry l h = ground arith

module _ (t : Tally) (l : Text) (lines : List Text)
    (ih : IsTally (tally_line l t) lines (tally (tally_line l t) lines)) where
  kept_step :
      (tally (tally_line l t) lines).kept_lines
      ≡ t.kept_lines ++ filter (λ l'. not (is_dropped l')) (l ∷ lines)
  unfolding tally_line is_dropped
  kept_step = ground (
    arith,
    valid_is_entry l,
    ih.kept_lines,
    append_assoc t.kept_lines (l ∷ []) (filter (λ l'. not (is_dropped l')) lines),
  )

  valid_step :
      (tally (tally_line l t) lines).valid_count
      ≡ t.valid_count + count line_is_valid_entry (l ∷ lines)
  unfolding tally_line is_dropped
  valid_step = ground (arith, valid_is_entry l, ih.valid_count)

  removed_step : (tally (tally_line l t) lines).removed ≡ t.removed + count is_dropped (l ∷ lines)
  unfolding tally_line is_dropped
  removed_step = ground (arith, valid_is_entry l, ih.removed)

pub tally-IsTally : (t : Tally) (lines : List Text) → IsTally t lines (tally t lines)
unfolding tally
tally-IsTally t [] = record {
  kept_lines = sym (append-nil t.kept_lines);
  valid_count = omega arith;
  removed = omega arith;
}
tally-IsTally t (l ∷ lines) =
    let ih = tally-IsTally (tally_line l t) lines in
    record {
      kept_lines = kept_step t l lines ih;
      valid_count = valid_step t l lines ih;
      removed = removed_step t l lines ih;
    }
