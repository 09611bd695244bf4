-- ===== src/Cleanup/Expiring/Stops.antt =====
-- The second pass: it settles a file in one run, and a date that is none stops it.
use dinomem.Prelude.{
  ℕ, ◌≡◌, refl, ap, sym, ◌∙◌, inl, inr, Bool, true, false, Option, none, some, List, [], ◌∷◌,
  Bool-cases, any, All,
}
use dinomem.Prelude.Text.{Text, text_eq, text_eq_iff, split, join}
use dinomem.Prelude.Text.Split.{Lacks, split-Lacks, split-join}
use dinomem.Retention.Entry.{newline}
use dinomem.Retention.Run.{Directory}
use dinomem.Retention.Run.Files.{find_file}
use dinomem.Dates.{strptime}
use dinomem.Cleanup.Expiring.{
  keep_unless, is_expired, find_expiry, unexpired, expire_rest, expiry_pass,
}

-- The lines that the pass leaves are not expired, and are some of the file's.
abbrev Fresh : ℕ → List Text → Type 0
Fresh today = All (λ l. is_expired today l ≡ some false)

unexpired_of_Fresh : (today : ℕ) (ls : List Text) → Fresh today ls → unexpired today ls ≡ some ls
unfolding unexpired
unexpired_of_Fresh today [] h = refl
unexpired_of_Fresh today (l ∷ ls) h = rw (h.0, unexpired_of_Fresh today ls h.1)

some_inj {ℓ} : {A : Type ℓ} (a b : A) → some a ≡ some b → a ≡ b
some_inj a b e = cc

unexpired-Fresh :
    (today : ℕ) (ls ks : List Text)
    → unexpired today ls ≡ some ks
    → All (Lacks newline) ls
    → Fresh today ks × All (Lacks newline) ks
unfolding unexpired
unexpired-Fresh today [] ks e h = rw (sym (some_inj [] ks e)) (tt, tt)
unexpired-Fresh today (l ∷ ls) ks e h =
    by_line (is_expired today l) refl (unexpired today ls) (unexpired-Fresh today ls) e
  where
    by_line :
        (o : Option Bool)
        → is_expired today l ≡ o
        → (r : Option (List Text))
        → ((ks : List Text)
            → r ≡ some ks
            → All (Lacks newline) ls
            → Fresh today ks × All (Lacks newline) ks)
        → keep_unless l o r ≡ some ks
        → Fresh today ks × All (Lacks newline) ks
    by_line none f r ih e = absurd (cc e)
    by_line (some b) f none ih e = absurd (cc e)
    by_line (some true) f (some rest) ih e = ih ks e h.1
    by_line (some false) f (some rest) ih e =
        let (x, y) = ih rest refl h.1 in rw (sym (some_inj (l ∷ rest) ks e)) ((f, x), (h.0, y))

-- A file that the second pass has gone through is left as it is by the next.
expire_twice :
    (today : ℕ) (content : Text) (ls : List Text)
    → unexpired today (split newline content) ≡ some ls
    → (ks : List Text) × (unexpired today (split newline (join (newline ∷ []) ls)) ≡ some ks)
      × (join (newline ∷ []) ks ≡ join (newline ∷ []) ls)
expire_twice today content ls e =
    by_lines ls (unexpired-Fresh today (split newline content) ls e (split-Lacks newline content))
  where
    by_lines :
        (ls : List Text)
        → Fresh today ls × All (Lacks newline) ls
        → (ks : List Text) × (unexpired today (split newline (join (newline ∷ []) ls)) ≡ some ks)
          × (join (newline ∷ []) ks ≡ join (newline ∷ []) ls)
    by_lines [] h =
        ([] ∷ [], unfold split join unexpired is_expired find_expiry in refl, unfold join in refl)
    by_lines (l ∷ ls) (f, k) = (
      l ∷ ls,
      ap (unexpired today) (split-join newline l ls k) ∙ unexpired_of_Fresh today (l ∷ ls) f,
      refl,
    )

-- A second pass that runs to its end leaves nothing to do: the same pass over what it wrote runs to its end
-- and changes no file.
pub expiry_pass-settles :
    (today : ℕ) (files : Directory)
    → (expiry_pass today files).1 ≡ true
    → expiry_pass today (expiry_pass today files).0 ≡ ((expiry_pass today files).0, true)
unfolding expiry_pass
expiry_pass-settles today [] h = refl
expiry_pass-settles today ((name, content) ∷ files) h =
    by_lines (unexpired today (split newline content)) refl (expiry_pass today files)
      (expiry_pass-settles today files) h
  where
    again :
        (o : Option (List Text)) (ls ks : List Text) (rest : Directory) (r : Directory × Bool)
        → o ≡ some ks
        → join (newline ∷ []) ks ≡ join (newline ∷ []) ls
        → r ≡ (rest, true)
        → expire_rest name (join (newline ∷ []) ls) rest o r
          ≡ ((name, join (newline ∷ []) ls) ∷ rest, true)
    again o ls ks rest r a b c = rw (a, c, b) refl

    by_lines :
        (o : Option (List Text))
        → unexpired today (split newline content) ≡ o
        → (r : Directory × Bool) → (r.1 ≡ true → expiry_pass today r.0 ≡ (r.0, true))
        → (expire_rest name content files o r).1 ≡ true
        → expiry_pass today (expire_rest name content files o r).0
          ≡ ((expire_rest name content files o r).0, true)
    by_lines none e r ih k = absurd (cc k)
    by_lines (some ls) e (rest, ok) ih k =
        let (ks, a, b) = expire_twice today content ls e in
        again (unexpired today (split newline (join (newline ∷ []) ls))) ls ks rest
          (expiry_pass today rest) a b (ih k)

unexpired_raises :
    (today : ℕ) (l : Text) (ls : List Text)
    → any (text_eq l) ls ≡ true
    → is_expired today l ≡ none
    → unexpired today ls ≡ none
unfolding unexpired
unexpired_raises today l [] h e = absurd (cc h)
unexpired_raises today l (x ∷ ls) h e = elim (Bool-cases (text_eq l x)) [
  | inl k ↦ rw (sym ((text_eq_iff l x).0 k)) (rw e refl)
  | inr d ↦ rw (unexpired_raises today l ls (rw d at h) e) (either (is_expired today x))
]
  where
    either : (o : Option Bool) → keep_unless x o none ≡ none
    either none = refl
    either (some b) = refl

raising_line_stops :
    (today : ℕ) (files : Directory) (name content l : Text)
    → find_file name files ≡ some content
    → any (text_eq l) (split newline content) ≡ true
    → is_expired today l ≡ none
    → (expiry_pass today files).1 ≡ false
unfolding expiry_pass find_file
raising_line_stops today [] name content l e h k = absurd (cc e)
raising_line_stops today ((n, c) ∷ files) name content l e h k =
    elim (Bool-cases (text_eq n name)) [
      | inl d ↦
          rw (some_inj c content (rw d at e), unexpired_raises today l (split newline content) h k)
            refl
      | inr d ↦
          later (unexpired today (split newline c)) (expiry_pass today files)
            (raising_line_stops today files name content l (rw d at e) h k)
    ]
  where
    later :
        (o : Option (List Text)) (r : Directory × Bool)
        → r.1 ≡ false
        → (expire_rest n c files o r).1 ≡ false
    later none r h = refl
    later (some ls) r h = h

-- One line of one file whose first tag [expires:...] has a date that the calendar does not have keeps the second
-- pass from running to its end.
pub expiry_pass-stops :
    (today : ℕ) (files : Directory) (name content l d : Text)
    → find_file name files ≡ some content
    → any (text_eq l) (split newline content) ≡ true
    → find_expiry l ≡ some d
    → strptime d ≡ none
    → (expiry_pass today files).1 ≡ false
expiry_pass-stops today files name content l d e h f g =
    raising_line_stops today files name content l e h
      (unfold is_expired in rw (f, is_expired) (rw g refl))
