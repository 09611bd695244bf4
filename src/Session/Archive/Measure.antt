-- ===== src/Session/Archive/Measure.antt =====
-- The length of the walk of `archive_predecessor_chain`: a round archives a transcript that is not
-- archived yet, or meets an archive for the first time.
use dinomem.Prelude.{
  ℕ, zero, suc, ◌+◌, ◌≤◌, ◌<◌, ◌≡◌, refl, ap, ◌∙◌, ◌⊎◌, inl, inr, true, false, some, List, [], ◌∷◌,
  if◌then◌else◌, length, any, arith, Bool-cases, Option-cases,
}
use dinomem.Prelude.Text.{Text, text_eq, text_eq_iff, text_eq_refl}
use dinomem.Session.Clean.{Line, Entry, cleanup_jsonl_content, written}
use dinomem.Session.Chain.{Files, read_file, is_seen}
use dinomem.Session.Archive.{
  has_slash, Place, archive_path, is_archived, unlink, write_file, Archived, moved, emptied, stuck,
  archive_file, next_parent, chain_loop, archive_predecessor_chain,
}
use dinomem.Session.Archive.Names.{archive_path_archived}

-- what a transcript may still cost the walk
weight : List Text → Text → ℕ
weight seen p = if is_archived p then (if any (text_eq p) seen then 0 else 1) else 2

abbrev load : List Text → Files → ℕ
load seen [] = 0
load seen ((p, lines) ∷ files) = weight seen p + load seen files

weight_seen : (path p : Text) (seen : List Text) → weight (path ∷ seen) p ≤ weight seen p
unfolding weight
weight_seen path p seen = ground arith

load_seen :
    (path : Text) (seen : List Text) (files : Files) → load (path ∷ seen) files ≤ load seen files
load_seen path seen [] = omega arith
load_seen path seen ((p, l) ∷ files) =
    omega (arith, weight_seen path p seen, load_seen path seen files)

load_le : (seen : List Text) (files : Files) → load seen files ≤ length files + length files
load_le seen [] = omega arith
load_le seen ((p, l) ∷ files) = omega (arith, two p, load_le seen files)
  where
    two : (q : Text) → weight seen q ≤ 2
    two q = unfold weight in ground arith

-- an archive that is met for the first time
load_meets :
    (path : Text) (seen : List Text) (files : Files) (lines : List Line)
    → read_file path files ≡ some lines
    → is_archived path ≡ true
    → is_seen path seen ≡ false
    → load (path ∷ seen) files < load seen files
unfolding read_file is_seen
load_meets path seen [] lines r a s = absurd (cc r)
load_meets path seen ((p, l) ∷ files) lines r a s = elim (Bool-cases (text_eq p path)) [
  | inl same ↦
      let e : p ≡ path = (text_eq_iff p path).0 same in
      let one : weight seen p ≡ 1 = rw e (unfold weight in rw a (rw s)) in
      let gone : weight (path ∷ seen) p ≡ 0 =
        rw e (unfold weight in rw a (rw (text_eq_refl path))) in
      omega (arith, load_seen path seen files, one, gone)
  | inr other ↦
      omega (arith, weight_seen path p seen, load_meets path seen files lines (rw other at r) a s)
]

load-unlink_le :
    (path : Text) (seen : List Text) (files : Files)
    → load seen (unlink path files) ≤ load seen files
unfolding unlink
load-unlink_le path seen [] = omega arith
load-unlink_le path seen ((p, l) ∷ files) = ground (arith, load-unlink_le path seen files)

load-unlink :
    (path : Text) (seen : List Text) (files : Files) (lines : List Line)
    → read_file path files ≡ some lines
    → is_archived path ≡ false
    → load seen (unlink path files) + 2 ≤ load seen files
unfolding read_file unlink
load-unlink path seen [] lines r a = absurd (cc r)
load-unlink path seen ((p, l) ∷ files) lines r a = elim (Bool-cases (text_eq p path)) [
  | inl same ↦
      let e : p ≡ path = (text_eq_iff p path).0 same in
      let two : weight seen p ≡ 2 = rw e (unfold weight in rw a) in
      rw same (omega (arith, load-unlink_le path seen files, two))
  | inr other ↦ rw other (omega (arith, load-unlink path seen files lines (rw other at r) a))
]

load-write_file :
    (path : Text) (seen : List Text) (lines : List Line) (files : Files)
    → is_archived path ≡ true
    → load seen (write_file path lines files) ≤ load seen files + 1
unfolding write_file
load-write_file path seen lines [] a = unfold weight in ground arith
load-write_file path seen lines ((p, l) ∷ files) a = elim (Bool-cases (text_eq p path)) [
  | inl same ↦
      let e : p ≡ path = (text_eq_iff p path).0 same in rw same (omega (arith, ap (weight seen) e))
  | inr other ↦ rw other (omega (arith, load-write_file path seen lines files a))
]

pub read-write_ne :
    (path q : Text) (lines : List Line) (files : Files)
    → text_eq q path ≡ false
    → read_file path (write_file q lines files) ≡ read_file path files
unfolding read_file write_file
read-write_ne path q lines [] n = rw n
read-write_ne path q lines ((p, l) ∷ files) n = ground (
  arith,
  text_eq_iff p q,
  text_eq_iff p path,
  text_eq_iff q path,
  read-write_ne path q lines files n,
)

next_parent_read :
    (current : Text) (files : Files) (parent : Text) (lines : List Line)
    → next_parent current files ≡ some (parent, lines)
    → read_file parent files ≡ some lines
unfolding next_parent
next_parent_read current files parent lines h = ground arith

other_name : (a b : Text) → is_archived a ≡ true → is_archived b ≡ false → text_eq a b ≡ false
other_name a b p q = elim (Bool-cases (text_eq a b)) [
  | inl same ↦ absurd (cc (ap is_archived ((text_eq_iff a b).0 same)))
  | inr other ↦ other
]

Archived-cases : (a : Archived) → (a ≡ moved) ⊎ ((a ≡ emptied) ⊎ (a ≡ stuck))
Archived-cases moved = inl refl
Archived-cases emptied = inr (inl refl)
Archived-cases stuck = inr (inr refl)

module _ (w : Place) (named : has_slash w.timestamp ≡ false) where
  moved_load :
      (seen : List Text) (parent : Text) (lines : List Line) (es : List Entry) (files : Files)
      → read_file parent files ≡ some lines
      → is_archived parent ≡ false
      → load (parent ∷ seen) (unlink parent (write_file (archive_path w parent) (written es) files))
        < load seen files
  moved_load seen parent lines es files r a =
      let arch = archive_path w parent in
      let arch_named = archive_path_archived w parent named in
      let still =
        read-write_ne parent arch (written es) files (other_name arch parent arch_named a) ∙ r in
      omega (
        arith,
        load-unlink parent (parent ∷ seen) (write_file arch (written es) files) lines still a,
        load-write_file arch (parent ∷ seen) (written es) files arch_named,
        load_seen parent seen files,
      )

  -- what one archived transcript leaves
  load-archive_file :
      (seen : List Text) (parent : Text) (lines : List Line) (files : Files)
      → read_file parent files ≡ some lines
      → is_archived parent ≡ false
      → (archive_file w parent lines files).0 ≡ moved
      → load (parent ∷ seen) (archive_file w parent lines files).1 < load seen files
  unfolding archive_file
  load-archive_file seen parent lines files r a m = go (cleanup_jsonl_content lines).0 refl
    where
      go :
          (es : List Entry)
          → (cleanup_jsonl_content lines).0 ≡ es
          → load (parent ∷ seen) (archive_file w parent lines files).1 < load seen files
      go [] e = absurd (ground arith)
      go (e ∷ es) k = elim (Bool-cases (w.write_fails (archive_path w parent))) [
        | inl f ↦ absurd (ground arith)
        | inr s ↦ rw (k, archive_file) (rw s (moved_load seen parent lines (e ∷ es) files r a))
      ]

  chain_loop_ends :
      (fuel : ℕ) (files : Files) (seen : List Text) (count : ℕ) (current : Text)
      → load seen files < fuel
      → (r : ℕ × Files) × (chain_loop fuel w files seen count current ≡ some r)
  unfolding chain_loop
  chain_loop_ends zero files seen count current h = absurd (omega arith)
  chain_loop_ends (suc fuel) files seen count current h =
      elim (Option-cases (next_parent current files)) [
        | inl root ↦ ((count, files), rw (root, chain_loop))
        | inr ((parent, lines), up) ↦ elim (Bool-cases (is_seen parent seen)) [
          | inl again ↦ ((count, files), rw (up, chain_loop) (rw again))
          | inr fresh ↦
              let r = next_parent_read current files parent lines up in
              elim (Bool-cases (is_archived parent)) [
                | inl old ↦
                    let (res, e) =
                      chain_loop_ends fuel files (parent ∷ seen) count parent
                        (omega (arith, load_meets parent seen files lines r old fresh)) in
                    (res, rw (up, chain_loop) (rw fresh (rw old e)))
                | inr new ↦ elim (Archived-cases (archive_file w parent lines files).0) [
                  | inl m ↦
                      let (res, e) =
                        chain_loop_ends fuel (archive_file w parent lines files).1 (parent ∷ seen)
                          (suc count) (archive_path w parent)
                          (omega (arith, load-archive_file seen parent lines files r new m)) in
                      (res, rw (up, chain_loop) (rw fresh (rw new (rw m e))))
                  | inr (inl d) ↦ (
                    (count, (archive_file w parent lines files).1),
                    rw (up, chain_loop) (rw fresh (rw new (rw d))),
                  )
                  | inr (inr k) ↦ ((count, files), rw (up, chain_loop) (rw fresh (rw new (rw k))))
                ]
              ]
        ]
      ]

  -- Whatever the headers name, cycles and archives included, the walk over the predecessors ends.
  pub archive_predecessor_chain_total :
      (files : Files) (session_file : Text)
      → (r : ℕ × Files) × (archive_predecessor_chain w files session_file ≡ some r)
  unfolding archive_predecessor_chain
  archive_predecessor_chain_total files session_file =
      chain_loop_ends (suc (length files + length files)) files [] 0 session_file
        (omega (arith, load_le [] files))
