-- ===== src/Retention/Prune/Keeps.antt =====
-- What `prune_file` does to the valid entries of a file, and what a second run does.
use dinomem.Prelude.{
  ◌≡◌, refl, ap, sym, ◌∙◌, ◌↔◌, Bool, true, false, not, Option, none, some, List, [], ◌∷◌, map,
  arith, filter, count, length, any, take, All, length-filter, length-map, filter-filter_of_imp,
  filter-filter_disjoint, All-filter, filter_of_count_zero,
}
use dinomem.Prelude.Text.{Text, is_space, split, join, strip}
use dinomem.Prelude.Text.Split.{
  marked, marked-strip_end, marked-join, split-Lacks, IgnoresSpace, Lacks,
}
use dinomem.Retention.Entry.{newline, line_is_valid_entry, seeds_valid}
use dinomem.Retention.Entry.Space.{
  is_dropped, line_is_valid_entry-IgnoresSpace, is_dropped-IgnoresSpace,
}
use dinomem.Retention.Prune.{
  Surroundings, Action, recently_reinforced, Tally, tally, no_lines, new_text, decide_file,
  prune_file,
}
use dinomem.Retention.Prune.Lines.{tally-IsTally}

newline_space : is_space newline ≡ true
unfolding is_space
newline_space = refl

-- The entries tagged [valid] of a file, without the spaces round them.
abbrev pub valid_entries : Text → List Text
valid_entries content = marked line_is_valid_entry (split newline content)

-- A file that is gone has none.
abbrev pub entries_after : Option Text → List Text
entries_after none = []
entries_after (some content) = valid_entries content

abbrev kept_of : Text → List Text
kept_of content = filter (λ l. not (is_dropped l)) (split newline content)

valid_not_dropped : (l : Text) → line_is_valid_entry l ≡ true → not (is_dropped l) ≡ true
unfolding is_dropped
valid_not_dropped l h = ground arith

kept_Lacks : (content : Text) → All (Lacks newline) (kept_of content)
kept_Lacks content =
    All-filter (Lacks newline) (λ l. not (is_dropped l)) (split newline content)
      (split-Lacks newline content)

-- The lines of the text that replaces a file, by a test that ignores spaces.
marked-new_text :
    (q : Text → Bool)
    → IgnoresSpace q
    → (content : Text)
    → marked q (split newline (new_text (kept_of content))) ≡ marked q (kept_of content)
unfolding new_text
marked-new_text q i content =
    marked-strip_end q i newline (join (newline ∷ []) (kept_of content)) newline_space
    ∙ marked-join q i newline (kept_of content) (kept_Lacks content)

valid_kept : (content : Text) → valid_entries (new_text (kept_of content)) ≡ valid_entries content
valid_kept content =
    marked-new_text line_is_valid_entry line_is_valid_entry-IgnoresSpace content
    ∙ (unfold marked in
        ap (map strip) (
          filter-filter_of_imp line_is_valid_entry (λ l. not (is_dropped l)) valid_not_dropped
            (split newline content)))

none_dropped :
    (content : Text) → marked is_dropped (split newline (new_text (kept_of content))) ≡ []
none_dropped content =
    marked-new_text is_dropped is_dropped-IgnoresSpace content
    ∙ (unfold marked in
        ap (map strip) (
          filter-filter_disjoint is_dropped (λ l. not (is_dropped l)) (λ l h. ap not h)
            (split newline content)))

count-marked : (q : Text → Bool) (ls : List Text) → count q ls ≡ length (marked q ls)
unfolding marked
count-marked q ls = sym (length-map strip (filter q ls) ∙ length-filter q ls)

no_valid :
    (content : Text)
    → count line_is_valid_entry (split newline content) ≡ 0
    → valid_entries content ≡ []
unfolding marked
no_valid content h =
    ap (map strip) (filter_of_count_zero line_is_valid_entry (split newline content) h)

abbrev tally_of : Text → Tally
tally_of content = tally no_lines (split newline content)

decide-keeps_valid :
    (w : Surroundings) (dry_run : Bool) (name content : Text) (t : Tally)
    → (t.valid_count ≡ 0 → valid_entries content ≡ [])
    → valid_entries (new_text t.kept_lines) ≡ valid_entries content
    → entries_after (decide_file w dry_run name content t).1 ≡ valid_entries content
unfolding decide_file
decide-keeps_valid w dry_run name content t h k = ground arith

tally_of-valid :
    (content : Text)
    → (tally_of content).valid_count ≡ count line_is_valid_entry (split newline content)
tally_of-valid content = omega (arith, (tally-IsTally no_lines (split newline content)).valid_count)

-- Whatever the run, the faults and the file, `prune_file` leaves every entry that is tagged [valid], in
-- order and but for the spaces round it: where it deletes the file there was none, and where it rewrites the file the valid entries of
-- the new text are those of the old.
pub prune_file-keeps_valid :
    (w : Surroundings) (dry_run : Bool) (name content : Text)
    → entries_after (prune_file w dry_run name content).1 ≡ valid_entries content
unfolding prune_file
prune_file-keeps_valid w dry_run name content = ground (
  arith,
  decide-keeps_valid w dry_run name content (tally_of content)
      (λ z. no_valid content (sym (tally_of-valid content) ∙ z))
      (ap (λ ls. valid_entries (new_text ls))
          (tally-IsTally no_lines (split newline content)).kept_lines
        ∙ valid_kept content),
)

-- The run deletes a file exactly when it is no dry run, the file can be read and removed, its first
-- 15 lines have no seed, it has no valid entry, and git does not show it as recently reinforced.
pub prune_file-deletes :
    (w : Surroundings) (dry_run : Bool) (name content : Text)
    → ((prune_file w dry_run name content).1 ≡ none) ↔ (
        (dry_run ≡ false)
        × (w.read_fails name ≡ false)
        × (w.unlink_fails name ≡ false)
        × (any seeds_valid (take 15 (split newline content)) ≡ false)
        × (count line_is_valid_entry (split newline content) ≡ 0)
        × (recently_reinforced w name ≡ false))
unfolding prune_file decide_file
prune_file-deletes w dry_run name content = ground (arith, tally_of-valid content)

tally_of-removed :
    (content : Text) → (tally_of content).removed ≡ count is_dropped (split newline content)
tally_of-removed content = omega (arith, (tally-IsTally no_lines (split newline content)).removed)

-- nothing more is dropped from the new text, and it has as many valid entries
again_removed : (content : Text) → (tally_of (new_text (kept_of content))).removed ≡ 0
again_removed content =
    tally_of-removed (new_text (kept_of content))
    ∙ (count-marked is_dropped (split newline (new_text (kept_of content)))
        ∙ ap length (none_dropped content))

again_valid :
    (content : Text)
    → (tally_of (new_text (kept_of content))).valid_count ≡ (tally_of content).valid_count
again_valid content =
    (tally_of-valid (new_text (kept_of content))
      ∙ count-marked line_is_valid_entry (split newline (new_text (kept_of content))))
    ∙ (ap length (valid_kept content)
        ∙ sym (tally_of-valid content ∙ count-marked line_is_valid_entry (split newline content)))

decide-settles :
    (w : Surroundings) (dry_run : Bool) (name content : Text) (t : Tally)
    → t.removed ≡ 0
    → (t.valid_count ≡ 0 → ⊥)
    → decide_file w dry_run name content t ≡ (
      record { action = Action.keep; removed_entries = 0; kept_entries = t.valid_count },
      some content,
    )
unfolding decide_file
decide-settles w dry_run name content t h k = ground arith

-- what a real rewrite says of the file
rewrite_facts :
    (w : Surroundings) (name content t : Text)
    → (prune_file w false name content).0.action ≡ Action.prune
    → (prune_file w false name content).1 ≡ some t
    → (w.read_fails name ≡ false)
      × ((tally_of content).valid_count ≡ 0 → ⊥)
      × (new_text (tally_of content).kept_lines ≡ t)
unfolding prune_file decide_file
rewrite_facts w name content t h e = ground arith

kept_of-tally : (content : Text) → (tally_of content).kept_lines ≡ kept_of content
kept_of-tally content = (tally-IsTally no_lines (split newline content)).kept_lines

settled :
    (w : Surroundings) (dry_run : Bool) (name content : Text)
    → w.read_fails name ≡ false
    → ((tally_of content).valid_count ≡ 0 → ⊥)
    → let (o, after) = prune_file w dry_run name (new_text (kept_of content)) in
      (o.action ≡ Action.keep)
      × (after ≡ some (new_text (kept_of content)))
      × (o.removed_entries ≡ 0)
unfolding prune_file
settled w dry_run name content r v =
    let d =
      decide-settles w dry_run name (new_text (kept_of content))
        (tally_of (new_text (kept_of content))) (again_removed content)
        (λ z. v (sym (again_valid content) ∙ z)) in
    ground (arith, d)

-- A file that has been pruned is settled: the next run, dry or not, keeps it as it is.
pub prune_file-settles :
    (w : Surroundings) (dry_run : Bool) (name content t : Text)
    → (prune_file w false name content).0.action ≡ Action.prune
    → (prune_file w false name content).1 ≡ some t
    → ((prune_file w dry_run name t).0.action ≡ Action.keep)
      × ((prune_file w dry_run name t).1 ≡ some t)
      × ((prune_file w dry_run name t).0.removed_entries ≡ 0)
prune_file-settles w dry_run name content t h e =
    let (r, v, n) = rewrite_facts w name content t h e in
    let k : new_text (kept_of content) ≡ t = ap new_text (sym (kept_of-tally content)) ∙ n in
    rw (← k) (settled w dry_run name content r v)
