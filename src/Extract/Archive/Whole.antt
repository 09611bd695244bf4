-- ===== src/Extract/Archive/Whole.antt =====
-- Nothing of an archive is lost between its turns and the windows, and no window is too long.
use mathlib.Core.List.{append-nil, append_assoc}
use dinomem.Prelude.{
  ℕ, ◌+◌, ◌≤◌, ◌≡◌, refl, sym, ap, ◌∙◌, ◌⊎◌, inl, inr, false, ◌&&◌, List, [], ◌∷◌, ◌++◌, map, arith,
  ltb, length, Bool-cases, All,
}
use dinomem.Prelude.Text.{Text}
use dinomem.Prelude.Text.Lines.{join_all}
use dinomem.Cleanup.Cluster.Partition.{concat}
use dinomem.Extract.Archive.{
  Turn, window_max_chars, is_compaction, from_last_compaction, piece, Chunking, no_chunks, close,
  cut, add_piece, is_boundary, is_full, add_message, take_turn, take_turns,
  extract_single_archive_content, total_chars, is_nonempty, push_window, windows_from, windows,
}

join_all-append : (xs ys : List Text) → join_all (xs ++ ys) ≡ join_all xs ++ join_all ys
unfolding join_all
join_all-append [] ys = refl
join_all-append (x ∷ xs) ys = rw (join_all-append xs ys) (sym (append_assoc x _ _))

-- the text in the chunks and in the current one
abbrev text_of : Chunking → Text
text_of s = join_all s.chunks ++ join_all s.current

join_all-close : (cs ps : List Text) → join_all (close cs ps) ≡ join_all cs ++ join_all ps
unfolding join_all
join_all-close cs [] = sym (append-nil _)
join_all-close cs (p ∷ ps) = join_all-append cs (join_all (p ∷ ps) ∷ []) ∙ rw append-nil

text_of-cut : (s : Chunking) → text_of (cut s) ≡ text_of s
unfolding cut
text_of-cut s = empty (join_all (close s.chunks s.current)) ∙ join_all-close s.chunks s.current
  where
    empty : (t : Text) → t ++ join_all [] ≡ t
    empty t = unfold join_all in append-nil _

text_of-add_piece : (p : Text) (s : Chunking) → text_of (add_piece p s) ≡ text_of s ++ p
unfolding add_piece
text_of-add_piece [] s = sym (append-nil _)
text_of-add_piece (c ∷ p) s =
    rw (join_all-append s.current ((c ∷ p) ∷ []))
      (unfold join_all in rw append-nil (sym (append_assoc (join_all s.chunks) _ _)))

text_of-add_message : (p : Text) (s : Chunking) → text_of (add_message p s) ≡ text_of s ++ p
unfolding add_message
text_of-add_message [] s = sym (append-nil _)
text_of-add_message (c ∷ p) s = elim (Bool-cases (is_full (add_piece (c ∷ p) s))) [
  | inl e ↦ rw e (text_of-cut (add_piece (c ∷ p) s) ∙ text_of-add_piece (c ∷ p) s)
  | inr n ↦ rw n (text_of-add_piece (c ∷ p) s)
]

module _ (upper : Text → Text) where
  text_of-take_turn :
      (t : Turn) (s : Chunking) → text_of (take_turn upper t s) ≡ text_of s ++ piece upper t
  unfolding take_turn
  text_of-take_turn t s = elim (Bool-cases (is_compaction t)) [
    | inl e ↦ rw e (text_of-add_piece (piece upper t) s)
    | inr n ↦ rw n (elim (Bool-cases (is_boundary t && is_full s)) [
      | inl b ↦ rw b (
          text_of-add_message (piece upper t) (cut s)
          ∙ ap (λ r. r ++ piece upper t) (text_of-cut s))
      | inr b ↦ rw b (text_of-add_message (piece upper t) s)
    ])
  ]

  text_of-take_turns :
      (ts : List Turn) (s : Chunking)
      → text_of (take_turns upper ts s) ≡ text_of s ++ join_all (map (piece upper) ts)
  unfolding take_turns
  text_of-take_turns [] s = sym (unfold join_all in append-nil _)
  text_of-take_turns (t ∷ ts) s =
      text_of-take_turns ts (take_turn upper t s)
      ∙ ap (λ r. r ++ join_all (map (piece upper) ts)) (text_of-take_turn t s)
      ∙ unfold join_all in append_assoc (text_of s) (piece upper t) _

  pub extract-pieces :
      (turns : List Turn)
      → join_all (extract_single_archive_content upper turns)
        ≡ join_all (map (piece upper) (from_last_compaction turns))
  unfolding extract_single_archive_content cut
  extract-pieces turns =
      let end = take_turns upper (from_last_compaction turns) no_chunks in
      sym (append-nil _)
      ∙ unfold join_all in
        text_of-cut end ∙ text_of-take_turns (from_last_compaction turns) no_chunks

-- A window within the limit, or of one chunk.
abbrev pub Fits : List Text → Type 0
Fits w = (total_chars w ≤ window_max_chars) ⊎ (length w ≡ 1)

total_chars-append :
    (xs : List Text) (c : Text) → total_chars (xs ++ (c ∷ [])) ≡ total_chars xs + length c
total_chars-append [] c = omega arith
total_chars-append (x ∷ xs) c = omega (arith, total_chars-append xs c)

push-Fits :
    (cur : List Text) (ws : List (List Text))
    → Fits cur
    → All Fits ws
    → All Fits (push_window cur ws)
push-Fits [] ws f h = h
push-Fits (c ∷ cur) ws f h = (f, h)

concat-push :
    (cur : List Text) (ws : List (List Text)) → concat (push_window cur ws) ≡ cur ++ concat ws
concat-push [] ws = refl
concat-push (c ∷ cur) ws = refl

windows_from-concat :
    (cur : List Text) (n : ℕ) (chunks : List Text)
    → concat (windows_from cur n chunks) ≡ cur ++ chunks
unfolding windows_from
windows_from-concat cur n [] = concat-push cur []
windows_from-concat cur n (ch ∷ chunks) =
    elim (Bool-cases (is_nonempty cur && ltb window_max_chars (n + length ch))) [
      | inl e ↦
          rw (e, windows_from)
            (concat-push cur _
              ∙ ap (λ r. cur ++ r) (windows_from-concat (ch ∷ []) (length ch) chunks))
      | inr o ↦
          rw (o, windows_from)
            (windows_from-concat (cur ++ (ch ∷ [])) (n + length ch) chunks
              ∙ append_assoc cur (ch ∷ []) chunks)
    ]

-- the current window with one more chunk that the test lets in
grown-Fits :
    (cur : List Text) (ch : Text)
    → (is_nonempty cur && ltb window_max_chars (total_chars cur + length ch)) ≡ false
    → Fits (cur ++ (ch ∷ []))
grown-Fits [] ch h = inr refl
grown-Fits (c ∷ cur) ch h = inl (ground (arith, total_chars-append cur ch))

windows_from-Fits :
    (cur : List Text) (n : ℕ) (chunks : List Text)
    → n ≡ total_chars cur
    → Fits cur
    → All Fits (windows_from cur n chunks)
unfolding windows_from
windows_from-Fits cur n [] e f = push-Fits cur [] f tt
windows_from-Fits cur n (ch ∷ chunks) e f =
    elim (Bool-cases (is_nonempty cur && ltb window_max_chars (n + length ch))) [
      | inl t ↦
          rw (t, windows_from)
            (push-Fits cur _ f
              (windows_from-Fits (ch ∷ []) (length ch) chunks (omega arith) (inr refl)))
      | inr o ↦
          rw (o, windows_from)
            (windows_from-Fits (cur ++ (ch ∷ [])) (n + length ch) chunks
              (omega (arith, total_chars-append cur ch)) (grown-Fits cur ch (rw e at o)))
    ]

-- The windows of an archive, one behind the other, are the pieces of its turns from the last compaction on,
-- with nothing lost and nothing twice; and every window has one chunk or stays within the limit.
pub windows-extract :
    (upper : Text → Text) (turns : List Turn)
    → (join_all (concat (windows (extract_single_archive_content upper turns)))
        ≡ join_all (map (piece upper) (from_last_compaction turns)))
      × All Fits (windows (extract_single_archive_content upper turns))
unfolding windows
windows-extract upper turns = (
  ap join_all (windows_from-concat [] 0 (extract_single_archive_content upper turns))
      ∙ extract-pieces upper turns,
  windows_from-Fits [] 0 (extract_single_archive_content upper turns) refl (inl (omega arith)),
)
