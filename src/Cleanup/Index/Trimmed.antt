-- ===== src/Cleanup/Index/Trimmed.antt =====
-- How `trim_memory_index` trims: under the limit, by as few entries from the front as that takes.
use dinomem.Prelude.{
  ℕ, ◌≤◌, ◌<◌, ◌≡◌, refl, sym, ◌⊎◌, inl, inr, Bool, List, [], ◌∷◌, ◌++◌, arith, ltb, leb,
  Bool-cases, length, take, drop, take-append-drop,
}
use dinomem.Prelude.Text.{Text, join}
use dinomem.Prelude.Text.Lines.{splitlines}
use dinomem.Cleanup.Index.{
  newline_text, collapse, header_end, pop_entries, trim_lines, trim_memory_index,
}

-- What is left is the end of the entries: of the ones taken away each left an index over the limit behind
-- which it was the first entry, and the rest is within the limit or empty.
pub data Popped (limit : ℕ) (header : List Text) : List Text → List Text → Type 0 where
  all_popped : Popped limit header [] []
  fits :
      (e : Text) (entries : List Text)
      → length (join newline_text (header ++ (e ∷ entries))) ≤ limit
      → Popped limit header (e ∷ entries) (e ∷ entries)
  pops :
      (e : Text) {entries left : List Text}
      → limit < length (join newline_text (header ++ (e ∷ entries)))
      → Popped limit header entries left
      → Popped limit header (e ∷ entries) left

module _ (limit : ℕ) (header : List Text) where
  pop_entries-Popped :
      (entries : List Text) → Popped limit header entries (pop_entries limit header entries)
  unfolding pop_entries
  pop_entries-Popped [] = all_popped
  pop_entries-Popped (e ∷ entries) =
      elim (Bool-cases (ltb limit (length (join newline_text (header ++ (e ∷ entries)))))) [
        | inl k ↦ rw k (pops e (ground arith) (pop_entries-Popped entries))
        | inr d ↦ rw d (fits e entries (ground arith))
      ]

  Popped-bound :
      {entries left : List Text}
      → Popped limit header entries left
      → (left ≡ []) ⊎ (length (join newline_text (header ++ left)) ≤ limit)
  Popped-bound all_popped = inl refl
  Popped-bound (fits e entries h) = inr h
  Popped-bound (pops e h p) = Popped-bound p

-- The trimmed index is the text with its over-long lines cut, where that is within the limit. Else it is made
-- of its lines up to the first entry, and of the end of the lines from there on: as many go from the front as it
-- takes to get within the limit, and no more.
pub trim_memory_index-Popped :
    (is_word : ℕ → Bool) (limit : ℕ) (content : Text)
    → ((length (collapse content) ≤ limit)
        × (trim_memory_index is_word limit content ≡ collapse content))
      ⊎ ((header : List Text) × (entries : List Text) × (left : List Text) × (splitlines
              (collapse content)
            ≡ header ++ entries)
          × Popped limit header entries left
          × (trim_memory_index is_word limit content ≡ join newline_text (header ++ left)))
unfolding trim_memory_index trim_lines
trim_memory_index-Popped is_word limit content =
    elim (Bool-cases (leb (length (collapse content)) limit)) [
      | inl k ↦ inl (ground arith, rw k refl)
      | inr d ↦
          let lines = splitlines (collapse content) in
          let end = header_end is_word lines in
          inr (
            take end lines,
            drop end lines,
            pop_entries limit (take end lines) (drop end lines),
            sym (take-append-drop end lines),
            pop_entries-Popped limit (take end lines) (drop end lines),
            rw d refl,
          )
    ]

-- The trimmed index is within the limit, or all of it from the first entry on is gone.
pub trim_memory_index_bound :
    (is_word : ℕ → Bool) (limit : ℕ) (content : Text)
    → (length (trim_memory_index is_word limit content) ≤ limit)
      ⊎ (trim_memory_index is_word limit content
          ≡ join newline_text (
              take
                (header_end is_word (splitlines (collapse content)))
                (splitlines (collapse content))
              ++ []))
unfolding trim_memory_index trim_lines
trim_memory_index_bound is_word limit content =
    elim (Bool-cases (leb (length (collapse content)) limit)) [
      | inl k ↦ inl (rw k (ground arith))
      | inr d ↦
          let lines = splitlines (collapse content) in
          let header = take (header_end is_word lines) lines in
          let entries = drop (header_end is_word lines) lines in
          rw d (
            by_bound header (pop_entries limit header entries)
              (Popped-bound limit header (pop_entries-Popped limit header entries)))
    ]
  where
    by_bound :
        (header left : List Text)
        → (left ≡ []) ⊎ (length (join newline_text (header ++ left)) ≤ limit)
        → (length (join newline_text (header ++ left)) ≤ limit)
          ⊎ (join newline_text (header ++ left) ≡ join newline_text (header ++ []))
    by_bound header left (inl e) = inr (rw e refl)
    by_bound header left (inr h) = inl h
