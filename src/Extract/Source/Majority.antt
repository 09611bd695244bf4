-- ===== src/Extract/Source/Majority.antt =====
-- The sender of an archive without a header is one that is named most often.
use dinomem.Prelude.{
  ℕ, ◌+◌, ◌≤◌, ◌≡◌, refl, sym, inl, inr, false, Option, none, some, List, [], ◌∷◌, ◌++◌, arith, All,
  Bool-cases, ltb, if◌then◌else◌,
}
use dinomem.Prelude.Text.{Text, text_eq, text_eq_iff, text_eq_refl}
use dinomem.Extract.Source.{
  ArchiveLine, direct_matches, header_id, count_id, count_matches, most_counted, scan_lines,
  source_id_from_archive, is_own_key, id_of,
}

-- how often an id is counted
abbrev pub times_of : Text → List (Text × ℕ) → ℕ
times_of id [] = 0
times_of id ((i, n) ∷ counts) = (if text_eq i id then n else 0) + times_of id counts

-- how often the matches name an id behind a key that is no agent's own
abbrev pub named : (Text → Text) → Text → List (Text × Text) → ℕ
named lower id [] = 0
named lower id ((key, i) ∷ ms) =
    (if is_own_key lower key then 0 else if text_eq i id then 1 else 0) + named lower id ms

-- the matches in all lines
abbrev pub matches_of : List ArchiveLine → List (Text × Text)
matches_of [] = []
matches_of (line ∷ lines) = direct_matches 0 [] line.text ++ matches_of lines

times_of-count_id :
    (id i : Text) (counts : List (Text × ℕ))
    → times_of i (count_id id counts) ≡ (if text_eq id i then 1 else 0) + times_of i counts
unfolding count_id
times_of-count_id id i [] = refl
times_of-count_id id i ((j, n) ∷ counts) =
    ground
      (arith, text_eq_iff j id, text_eq_iff j i, text_eq_iff id i, times_of-count_id id i counts)

times_of-count_matches :
    (lower : Text → Text) (i : Text) (ms : List (Text × Text)) (counts : List (Text × ℕ))
    → times_of i (count_matches lower ms counts) ≡ named lower i ms + times_of i counts
unfolding count_matches
times_of-count_matches lower i [] counts = omega arith
times_of-count_matches lower i ((key, id) ∷ ms) counts = elim (Bool-cases (is_own_key lower key)) [
  | inl e ↦ rw e (omega (arith, times_of-count_matches lower i ms counts))
  | inr n ↦ rw n (
      omega (
        arith,
        times_of-count_matches lower i ms (count_id id counts),
        times_of-count_id id i counts,
      ))
]

-- no count of the id
abbrev Fresh : Text → List (Text × ℕ) → Type 0
Fresh i = All (λ e. text_eq e.0 i ≡ false)

-- one count for each id
abbrev Once : List (Text × ℕ) → Type 0
Once [] = Unit
Once ((i, n) ∷ counts) = Fresh i counts × Once counts

count_id-Fresh :
    (id i : Text) (counts : List (Text × ℕ))
    → text_eq id i ≡ false
    → Fresh i counts
    → Fresh i (count_id id counts)
unfolding count_id
count_id-Fresh id i [] n h = (n, tt)
count_id-Fresh id i ((j, k) ∷ counts) n h = elim (Bool-cases (text_eq j id)) [
  | inl e ↦ rw e (h.0, h.1)
  | inr e ↦ rw e (h.0, count_id-Fresh id i counts n h.1)
]

count_id-Once : (id : Text) (counts : List (Text × ℕ)) → Once counts → Once (count_id id counts)
unfolding count_id
count_id-Once id [] h = (tt, tt)
count_id-Once id ((j, k) ∷ counts) h = elim (Bool-cases (text_eq j id)) [
  | inl e ↦ rw e (h.0, h.1)
  | inr e ↦ rw e (count_id-Fresh id j counts (other id j e) h.0, count_id-Once id counts h.1)
]
  where
    other : (a b : Text) → text_eq b a ≡ false → text_eq a b ≡ false
    other a b n = ground (arith, text_eq_iff a b, text_eq_iff b a)

count_matches-Once :
    (lower : Text → Text) (ms : List (Text × Text)) (counts : List (Text × ℕ))
    → Once counts
    → Once (count_matches lower ms counts)
unfolding count_matches
count_matches-Once lower [] counts h = h
count_matches-Once lower ((key, id) ∷ ms) counts h = elim (Bool-cases (is_own_key lower key)) [
  | inl e ↦ rw e (count_matches-Once lower ms counts h)
  | inr n ↦ rw n (count_matches-Once lower ms (count_id id counts) (count_id-Once id counts h))
]

times_of_Fresh : (i : Text) (counts : List (Text × ℕ)) → Fresh i counts → times_of i counts ≡ 0
times_of_Fresh i [] h = refl
times_of_Fresh i ((j, n) ∷ counts) h = ground (arith, times_of_Fresh i counts h.1)

abbrev IsMost : Option (Text × ℕ) → List (Text × ℕ) → Type 0
IsMost none counts = (i : Text) → times_of i counts ≡ 0
IsMost (some (id, n)) counts = ((i : Text) → times_of i counts ≤ n) × (n ≤ times_of id counts)

most_counted-IsMost : (counts : List (Text × ℕ)) → Once counts → IsMost (most_counted counts) counts
unfolding most_counted
most_counted-IsMost [] h = λ i. refl
most_counted-IsMost ((j, k) ∷ counts) h =
    by_rest (most_counted counts) refl (most_counted-IsMost counts h.1)
  where
    own : (m : ℕ) → k ≤ m → (i : Text) → (times_of i counts ≤ m) → times_of i ((j, k) ∷ counts) ≤ m
    own m le i t = elim (Bool-cases (text_eq j i)) [
      | inl e ↦ rw e (omega (arith, times_of_Fresh i counts (rw ((text_eq_iff j i).0 e) at h.0)))
      | inr n ↦ rw n (omega (arith, t))
    ]

    first : k ≤ times_of j ((j, k) ∷ counts)
    first = rw (text_eq_refl j) (omega arith)

    by_rest :
        (o : Option (Text × ℕ))
        → most_counted counts ≡ o
        → IsMost o counts
        → IsMost (most_counted ((j, k) ∷ counts)) ((j, k) ∷ counts)
    by_rest none e q = rw (e, most_counted) (λ i. own k (omega arith) i (omega (arith, q i)), first)
    by_rest (some (id, m)) e q = elim (Bool-cases (ltb k m)) [
      | inl l ↦
          rw (e, most_counted) (rw l (λ i. own m (ground arith) i (q.0 i), ground (arith, q.1)))
      | inr l ↦
          rw (e, most_counted) (rw l (λ i. own k (omega arith) i (ground (arith, q.0 i)), first))
    ]

named-append :
    (lower : Text → Text) (i : Text) (xs ys : List (Text × Text))
    → named lower i (xs ++ ys) ≡ named lower i xs + named lower i ys
named-append lower i [] ys = omega arith
named-append lower i ((key, id) ∷ xs) ys = omega (arith, named-append lower i xs ys)

abbrev NoHeader : List ArchiveLine → Type 0
NoHeader = All (λ line. header_id line.session_keys ≡ none)

scan_lines-most :
    (lower : Text → Text) (lines : List ArchiveLine) (counts : List (Text × ℕ)) (id i : Text)
    → Once counts
    → NoHeader lines
    → scan_lines lower lines counts ≡ some id
    → named lower i (matches_of lines) + times_of i counts
      ≤ named lower id (matches_of lines) + times_of id counts
unfolding scan_lines
scan_lines-most lower [] counts id i o h e =
    by_most (most_counted counts) refl (most_counted-IsMost counts o) e
  where
    by_most :
        (m : Option (Text × ℕ))
        → most_counted counts ≡ m
        → IsMost m counts
        → id_of m ≡ some id
        → 0 + times_of i counts ≤ 0 + times_of id counts
    by_most none q k r = absurd (cc)
    by_most (some (j, n)) q k r = rw (sym (inj r)) (omega (arith, k.0 i, k.1))
      where
        inj : some j ≡ some id → j ≡ id
        inj p = cc
scan_lines-most lower (line ∷ lines) counts id i o h e =
    let ms = direct_matches 0 [] line.text in
    omega (
      arith,
      named-append lower i ms (matches_of lines),
      named-append lower id ms (matches_of lines),
      times_of-count_matches lower i ms counts,
      times_of-count_matches lower id ms counts,
      scan_lines-most lower lines (count_matches lower ms counts) id i
          (count_matches-Once lower ms counts o) h.1 (rw (h.0, scan_lines) at e),
    )

-- Without a session header that names a direct chat, the sender is an id that the lines name at least as often as any
-- other behind a key that is no agent's own.
pub source_id_from_archive-most :
    (lower : Text → Text) (lines : List ArchiveLine) (id i : Text)
    → NoHeader lines
    → source_id_from_archive lower lines ≡ some id
    → named lower i (matches_of lines) ≤ named lower id (matches_of lines)
unfolding source_id_from_archive
source_id_from_archive-most lower lines id i h e =
    omega (arith, scan_lines-most lower lines [] id i tt h e)
