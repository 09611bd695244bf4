-- ===== src/Session/Chain/Depth.antt =====
-- The length of the walk of `get_compaction_depth`.
use dinomem.Prelude.{
  ℕ, zero, suc, ◌+◌, ◌≤◌, ◌<◌, ◌≡◌, ap, inl, inr, false, not, Option, some, List, [], ◌∷◌, length,
  any, count, arith, Bool-cases, Option-cases,
}
use dinomem.Prelude.Text.{Text, text_eq, text_eq_iff}
use dinomem.Session.Clean.{Line}
use dinomem.Session.Chain.{Files, read_file, is_seen, parent_of, depth_loop, get_compaction_depth}

-- the transcripts that the walk has not met
abbrev unseen : List Text → Files → ℕ
unseen seen files = count (λ f. not (any (text_eq f.0) seen)) files

unseen_mono :
    (path : Text) (seen : List Text) (files : Files)
    → unseen (path ∷ seen) files ≤ unseen seen files
unseen_mono path seen [] = omega arith
unseen_mono path seen (f ∷ files) = ground (arith, unseen_mono path seen files)

-- A transcript met for the first time is one less.
unseen_falls :
    (path : Text) (seen : List Text) (files : Files) (lines : List Line)
    → read_file path files ≡ some lines
    → is_seen path seen ≡ false
    → unseen (path ∷ seen) files < unseen seen files
unfolding read_file is_seen
unseen_falls path seen [] lines h k = absurd (cc h)
unseen_falls path seen ((p, l) ∷ files) lines h k = elim (Bool-cases (text_eq p path)) [
  | inl same ↦
      let e : p ≡ path = (text_eq_iff p path).0 same in
      ground (arith, ap (λ x. any (text_eq x) seen) e, unseen_mono path seen files)
  | inr other ↦ ground (arith, unseen_falls path seen files lines (rw other at h) k)
]

unseen-le : (seen : List Text) (files : Files) → unseen seen files ≤ length files
unseen-le seen [] = omega arith
unseen-le seen (f ∷ files) = ground (arith, unseen-le seen files)

-- what the walk returns, with enough fuel
Ends : ℕ → Option ℕ → Type 0
Ends bound o = (r : ℕ) × (o ≡ some r) × (r ≤ bound)

depth_loop-Ends :
    (fuel : ℕ) (files : Files) (seen : List Text) (depth : ℕ) (current : Text)
    → unseen seen files < fuel
    → Ends (depth + unseen seen files) (depth_loop fuel files seen depth current)
unfolding Ends depth_loop
depth_loop-Ends zero files seen depth current h = absurd (omega arith)
depth_loop-Ends (suc fuel) files seen depth current h =
    elim (Option-cases (read_file current files)) [
      | inl gone ↦ (depth, rw (gone, depth_loop), omega arith)
      | inr (lines, found) ↦ elim (Bool-cases (is_seen current seen)) [
        | inl again ↦ (depth, rw (found, depth_loop) (rw again), omega arith)
        | inr fresh ↦ elim (Option-cases (parent_of lines)) [
          | inl root ↦ (depth, rw (found, depth_loop) (rw fresh (rw root)), omega arith)
          | inr (parent, up) ↦
              let falls = unseen_falls current seen files lines found fresh in
              let (r, e, b) =
                depth_loop-Ends fuel files (current ∷ seen) (suc depth) parent (omega arith) in
              (r, rw (found, depth_loop) (rw fresh (rw up e)), omega arith)
        ]
      ]
    ]

-- The walk over the parentSession chain ends on any transcripts, cycles included, and counts at most as
-- many generations as there are transcripts.
pub get_compaction_depth_total :
    (files : Files) (session_file : Text)
    → (depth : ℕ) × (get_compaction_depth files session_file ≡ some depth) × (depth ≤ length files)
unfolding get_compaction_depth Ends
get_compaction_depth_total files session_file =
    let (r, e, b) =
      depth_loop-Ends (suc (length files)) files [] 0 session_file
        (omega (arith, unseen-le [] files)) in
    (r, e, omega (arith, unseen-le [] files))
