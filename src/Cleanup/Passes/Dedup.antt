-- ===== src/Cleanup/Passes/Dedup.antt =====
-- The first pass: which lines it removes from a file, and where they go.
pub mod Archived
use dinomem.Prelude.{
  ℕ, suc, ◌<◌, ◌≡◌, refl, ap, sym, ◌∙◌, inl, inr, Bool, true, false, ◌&&◌, not, some, List, [], ◌∷◌,
  ◌++◌, arith, ◌==◌, Bool-cases, if◌then◌else◌, any, filter,
}
use dinomem.Prelude.Text.{Text, codes, text_eq, text_eq_iff, strip, contains, split, join}
use dinomem.Retention.Entry.{newline}
use dinomem.Retention.Run.{Directory}
use dinomem.Retention.Run.Files.{find_file}
use dinomem.Cleanup.Passes.{
  is_item, items_of, remove_indices, kept_lines, Moment, archive_name, dedup_note, apply_removals,
  dedup_file, dedup_files,
}
use dinomem.Cleanup.Passes.Lines.{
  join-split, contains-append_right, contains-append_left, contains-join, archived,
  archived-append_file, append_file-grows,
}

-- An item whose text is not in the result goes, every other line stays.
unfoldable pub goes : List Text → Text → Bool
goes deduped line = is_item line && not (any (text_eq (strip line)) deduped)

below : (k i : ℕ) → k < i → (k == i) ≡ false
below k i h = ground arith

module _ (deduped : List Text) where
  remove_indices-later :
      (i j : ℕ) (lines : List Text)
      → i < j
      → any (λ k. k == i) (remove_indices deduped (items_of j lines)) ≡ false
  unfolding remove_indices items_of
  remove_indices-later i j [] h = refl
  remove_indices-later i j (line ∷ lines) h = ground (arith, remove_indices-later i (suc j) lines)

  kept_lines-earlier :
      (k j : ℕ) (indices : List ℕ) (lines : List Text)
      → k < j
      → kept_lines (k ∷ indices) j lines ≡ kept_lines indices j lines
  unfolding kept_lines
  kept_lines-earlier k j indices [] h = refl
  kept_lines-earlier k j indices (line ∷ lines) h =
      rw (below k j h, kept_lines-earlier k (suc j) indices lines (omega arith))

  same : (i : ℕ) → (i == i) ≡ true
  same i = ground arith

  indices_goes :
      (i : ℕ) (line : Text) (lines : List Text)
      → goes deduped line ≡ true
      → remove_indices deduped (items_of i (line ∷ lines))
        ≡ i ∷ remove_indices deduped (items_of (suc i) lines)
  unfolding remove_indices items_of goes
  indices_goes i line lines h = ground arith

  indices_stays :
      (i : ℕ) (line : Text) (lines : List Text)
      → goes deduped line ≡ false
      → remove_indices deduped (items_of i (line ∷ lines))
        ≡ remove_indices deduped (items_of (suc i) lines)
  unfolding remove_indices items_of goes
  indices_stays i line lines h = ground arith

  kept_lines-goes :
      (i : ℕ) (line : Text) (lines : List Text)
      → goes deduped line ≡ true
      → kept_lines (remove_indices deduped (items_of i (line ∷ lines))) i (line ∷ lines)
        ≡ kept_lines (remove_indices deduped (items_of (suc i) lines)) (suc i) lines
  kept_lines-goes i line lines e =
      ap (λ is. kept_lines is i (line ∷ lines)) (indices_goes i line lines e)
      ∙ (unfold kept_lines in
          rw (
            same i,
            kept_lines-earlier i (suc i) (remove_indices deduped (items_of (suc i) lines)) lines
                (omega arith),
          ))

  kept_lines-stays :
      (i : ℕ) (line : Text) (lines : List Text)
      → goes deduped line ≡ false
      → kept_lines (remove_indices deduped (items_of i (line ∷ lines))) i (line ∷ lines)
        ≡ line ∷ kept_lines (remove_indices deduped (items_of (suc i) lines)) (suc i) lines
  kept_lines-stays i line lines n =
      ap (λ is. kept_lines is i (line ∷ lines)) (indices_stays i line lines n)
      ∙ (unfold kept_lines in rw (remove_indices-later i (suc i) lines (omega arith)))

  kept_lines-filter :
      (i : ℕ) (lines : List Text)
      → kept_lines (remove_indices deduped (items_of i lines)) i lines
        ≡ filter (λ l. not (goes deduped l)) lines
  kept_lines-filter i [] = unfold kept_lines in refl
  kept_lines-filter i (line ∷ lines) = elim (Bool-cases (goes deduped line)) [
    | inl e ↦ rw e (kept_lines-goes i line lines e ∙ kept_lines-filter (suc i) lines)
    | inr n ↦
        rw n
          (kept_lines-stays i line lines n ∙ ap (λ r. line ∷ r) (kept_lines-filter (suc i) lines))
  ]

  kept_lines_none : (i : ℕ) (lines : List Text) → kept_lines [] i lines ≡ lines
  unfolding kept_lines
  kept_lines_none i [] = refl
  kept_lines_none i (line ∷ lines) = ap (λ r. line ∷ r) (kept_lines_none (suc i) lines)

  -- The first pass rewrites a file to its lines without the items whose text is not in the result of the
  -- deduplication: a text in the result keeps all its copies.
  pub dedup_file-lines :
      (m : Moment) (name content : Text) (archive : Directory)
      → (dedup_file m deduped name content archive).1.0
        ≡ join (newline ∷ []) (filter (λ l. not (goes deduped l)) (split newline content))
  unfolding dedup_file apply_removals
  dedup_file-lines m name content archive =
      by_indices (remove_indices deduped (items_of 0 (split newline content)))
        (kept_lines-filter 0 (split newline content))
    where
      by_indices :
          (indices : List ℕ)
          → kept_lines indices 0 (split newline content)
            ≡ filter (λ l. not (goes deduped l)) (split newline content)
          → (apply_removals m name content archive indices).1.0
            ≡ join (newline ∷ []) (filter (λ l. not (goes deduped l)) (split newline content))
      by_indices [] h =
          sym (join-split newline content)
          ∙ ap (join (newline ∷ [])) (sym (kept_lines_none 0 (split newline content)) ∙ h)
      by_indices (k ∷ is) h = ap (join (newline ∷ [])) h
