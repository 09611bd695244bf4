-- ===== src/Session/Chain/Lineage.antt =====
-- `get_lineage_compaction_count` beside `get_compaction_depth`.
use dinomem.Prelude.{
  ℕ, zero, suc, ◌+◌, ◌≤◌, ◌≡◌, refl, inl, inr, Option, none, some, List, [], ◌∷◌, length, arith,
  Bool-cases, Option-cases, min, max,
}
use dinomem.Prelude.Text.{Text}
use dinomem.Session.Clean.{
  Line, blank, malformed, broken, entry, session, compaction, message, event, get_session_header,
}
use dinomem.Session.Chain.{
  Files, read_file, is_seen, truthy, parent_of, depth_loop, get_compaction_depth, scan_file,
  lineage_loop, get_lineage_compaction_count, max_hops,
}

-- A transcript whose first entry is a header has that header in the scan too.
scan-header :
    (lines : List Line) (h : Option Text)
    → get_session_header lines ≡ some h
    → (scan_file lines).1 ≡ some h
unfolding get_session_header scan_file
scan-header [] h e = absurd (cc e)
scan-header (blank ∷ lines) h e = scan-header lines h e
scan-header (malformed ∷ lines) h e = absurd (cc e)
scan-header (broken ∷ lines) h e = absurd (cc e)
scan-header (entry (session p) ∷ lines) h e = e
scan-header (entry compaction ∷ lines) h e = absurd (cc e)
scan-header (entry (message r c) ∷ lines) h e = absurd (cc e)
scan-header (entry event ∷ lines) h e = absurd (cc e)

truthy-some :
    (o : Option (Option Text)) (p : Text) → truthy o ≡ some p → (h : Option Text) × (o ≡ some h)
unfolding truthy
truthy-some none p e = absurd (cc e)
truthy-some (some h) p e = (h, refl)

scan-parent :
    (lines : List Line) (p : Text) → parent_of lines ≡ some p → truthy (scan_file lines).1 ≡ some p
unfolding parent_of
scan-parent lines p e =
    let (h, k) = truthy-some (get_session_header lines) p e in
    rw (scan-header lines h k) (rw k at e)

best-le :
    (left : ℕ) (files : Files) (seen : List Text) (hops best : ℕ) (current : Text)
    → best ≤ lineage_loop left files seen hops best current
unfolding lineage_loop
best-le zero files seen hops best current = omega arith
best-le (suc left) files seen hops best current = elim (Option-cases (read_file current files)) [
  | inl gone ↦ rw (gone, lineage_loop) (omega arith)
  | inr (lines, found) ↦
      rw (found, lineage_loop)
        (elim (Bool-cases (is_seen current seen)) [
          | inl again ↦ rw again (omega arith)
          | inr fresh ↦ rw fresh (elim (Option-cases (truthy (scan_file lines).1)) [
            | inl root ↦ rw root (omega arith)
            | inr (parent, up) ↦ rw up (
                omega (
                  arith,
                  best-le left files (current ∷ seen) (suc hops)
                      (max (max best (scan_file lines).0) (suc hops)) parent,
                ))
          ])
        ])
]

-- Where the chain walk counts a depth, the lineage walk counts as many hops, or stops at its ceiling.
depth_le_lineage :
    (fuel left : ℕ) (files : Files) (seen : List Text) (depth best : ℕ) (current : Text) (r : ℕ)
    → depth_loop fuel files seen depth current ≡ some r
    → depth ≤ best
    → min r (left + depth) ≤ lineage_loop left files seen depth best current
unfolding depth_loop lineage_loop
depth_le_lineage zero left files seen depth best current r e h = absurd (cc e)
depth_le_lineage (suc fuel) zero files seen depth best current r e h =
    omega (arith, best-le zero files seen depth best current)
depth_le_lineage (suc fuel) (suc left) files seen depth best current r e h =
    elim (Option-cases (read_file current files)) [
      | inl gone ↦ stops (rw (gone, depth_loop) at e)
      | inr (lines, found) ↦
          let e₁ = rw (found, depth_loop) at e in
          elim (Bool-cases (is_seen current seen)) [
            | inl again ↦ stops (rw again at e₁)
            | inr fresh ↦
                let e₂ = rw fresh at e₁ in
                elim (Option-cases (parent_of lines)) [
                  | inl root ↦ stops (rw root at e₂)
                  | inr (parent, up) ↦
                      rw (found, lineage_loop)
                        (rw fresh (
                          rw (scan-parent lines parent up) (
                            omega (
                              arith,
                              depth_le_lineage fuel left files (current ∷ seen) (suc depth)
                                  (max (max best (scan_file lines).0) (suc depth)) parent r
                                  (rw up at e₂) (omega arith),
                            ))))
                ]
          ]
    ]
  where
    stops :
        some depth ≡ some r
        → min r (suc left + depth) ≤ lineage_loop (suc left) files seen depth best current
    stops k =
        let same : depth ≡ r = cc in omega (arith, best-le (suc left) files seen depth best current)

-- The lineage walk counts at least the depth of the parentSession chain, up to its ceiling of 40 hops,
-- so it only ever raises the count.
pub lineage_covers_depth :
    (files : Files) (session_file : Text) (depth : ℕ)
    → get_compaction_depth files session_file ≡ some depth
    → min depth 40 ≤ get_lineage_compaction_count files session_file
unfolding get_compaction_depth get_lineage_compaction_count
lineage_covers_depth files session_file depth e =
    depth_le_lineage (suc (length files)) max_hops files [] 0 0 session_file depth e (omega arith)
