-- ===== src/CommitReason/Subject.antt =====
-- What a subject is.
use dinomem.Prelude.{
  ℕ, zero, suc, ◌≤◌, ◌≡◌, refl, sym, ap, ◌∙◌, inl, inr, ◌⊎◌, Bool, true, false, not, List, [], ◌∷◌,
  ◌++◌, arith, Bool-cases, length-append_one, All, All-append, length, length-take, take, ltb,
  if◌then◌else◌,
}
use dinomem.Prelude.Text.{
  Text, codes, text_eq, is_space, strip, lstrip, rstrip, rstrip_cons, cons_first, join,
}
use dinomem.Prelude.Text.Lines.{ends_line}
use dinomem.CommitReason.{in_word, words, bounded, clean_subject}

-- no end of a line in the text
abbrev pub IsLine : Text → Type 0
IsLine = All (λ c. ends_line c ≡ false)

-- A single line of at most 72 characters that does not start with a space.
abbrev pub IsSubject : Text → Type 0
IsSubject s = (in_word s ≡ true) × ((length s ≤ 72) × IsLine s)

-- A word: a line that does not start with a space.
abbrev IsWord : Text → Type 0
IsWord s = (in_word s ≡ true) × IsLine s

no_line_end : (c : ℕ) → is_space c ≡ false → ends_line c ≡ false
unfolding is_space ends_line
no_line_end c h = ground (arith)

cons_first-IsWord :
    (c : ℕ) (ws : List Text) → is_space c ≡ false → All IsWord ws → All IsWord (cons_first c ws)
unfolding cons_first
cons_first-IsWord c [] h hs = ((rw h refl, (no_line_end c h, tt)), tt)
cons_first-IsWord c (w ∷ ws) h ((k, l), hs) = ((rw h refl, (no_line_end c h, l)), hs)

words-IsWord : (s : Text) → All IsWord (words s)
unfolding words
words-IsWord [] = tt
words-IsWord (c ∷ s) = elim (Bool-cases (is_space c)) [
  | inl e ↦ rw e (words-IsWord s)
  | inr n ↦ rw n (step (in_word s) n (words-IsWord s))
]
  where
    step :
        (b : Bool)
        → is_space c ≡ false
        → All IsWord (words s)
        → All IsWord (if b then cons_first c (words s) else (c ∷ []) ∷ words s)
    step true h hs = cons_first-IsWord c (words s) h hs
    step false h hs = ((rw h refl, (no_line_end c h, tt)), hs)

in_word-append : (s t : Text) → in_word s ≡ true → in_word (s ++ t) ≡ true
in_word-append [] t h = cc
in_word-append (c ∷ s) t h = h

join-IsWord : (w : Text) (ws : List Text) → All IsWord (w ∷ ws) → IsWord (join (codes " ") (w ∷ ws))
unfolding join
join-IsWord w [] (h, hs) = h
join-IsWord w (v ∷ ws) ((h, l), hs) = (
  in_word-append w _ h,
  All-append (λ c. ends_line c ≡ false) w _ l ((unfold ends_line in refl), (join-IsWord v ws hs).1),
)

take-IsLine : (k : ℕ) (s : Text) → IsLine s → IsLine (take k s)
take-IsLine zero s h = tt
take-IsLine (suc k) [] h = tt
take-IsLine (suc k) (c ∷ s) (h, hs) = (h, take-IsLine k s hs)

rstrip_cons-IsLine : (c : ℕ) (s : Text) → ends_line c ≡ false → IsLine s → IsLine (rstrip_cons c s)
unfolding rstrip_cons
rstrip_cons-IsLine c [] h hs = step (is_space c)
  where
    step : (b : Bool) → IsLine (if b then [] else c ∷ [])
    step true = tt
    step false = (h, tt)
rstrip_cons-IsLine c (d ∷ s) h hs = (h, hs)

rstrip-IsLine : (s : Text) → IsLine s → IsLine (rstrip s)
unfolding rstrip
rstrip-IsLine [] h = tt
rstrip-IsLine (c ∷ s) (h, hs) = rstrip_cons-IsLine c (rstrip s) h (rstrip-IsLine s hs)

length-rstrip_cons : (c : ℕ) (s : Text) → length (rstrip_cons c s) ≤ suc (length s)
unfolding rstrip_cons
length-rstrip_cons c [] = step (is_space c)
  where
    step : (b : Bool) → length (if b then [] else c ∷ []) ≤ 1
    step true = omega arith
    step false = omega arith
length-rstrip_cons c (d ∷ s) = omega arith

length-rstrip : (s : Text) → length (rstrip s) ≤ length s
unfolding rstrip
length-rstrip [] = omega arith
length-rstrip (c ∷ s) = omega (arith, length-rstrip_cons c (rstrip s), length-rstrip s)

rstrip_cons-in_word : (c : ℕ) (s : Text) → is_space c ≡ false → in_word (rstrip_cons c s) ≡ true
unfolding rstrip_cons
rstrip_cons-in_word c [] h = rw h (rw h refl)
rstrip_cons-in_word c (d ∷ s) h = rw h refl

pub has_first : (s : Text) → in_word s ≡ true → text_eq s [] ≡ false
unfolding text_eq
has_first [] h = cc
has_first (c ∷ s) h = refl

space_off : (c : ℕ) (s : Text) → in_word (c ∷ s) ≡ true → is_space c ≡ false
space_off c s h = elim (Bool-cases (is_space c)) [
  | inl e ↦ e ∙ (sym h ∙ ap (λ b. not b) e)
  | inr n ↦ n
]

-- A text that does not start with a space is not only spaces.
pub strip-in_word : (s : Text) → in_word s ≡ true → text_eq (strip s) [] ≡ false
unfolding strip lstrip
strip-in_word [] h = cc
strip-in_word (c ∷ s) h = rw (space_off c s h) (
    unfold rstrip in
    has_first (rstrip_cons c (rstrip s)) (rstrip_cons-in_word c (rstrip s) (space_off c s h)))

bounded-IsSubject : (s : Text) → IsWord s → IsSubject (bounded s)
unfolding bounded
bounded-IsSubject [] (h, hs) = cc
bounded-IsSubject (c ∷ s) (h, hs) = elim (Bool-cases (ltb 72 (length (c ∷ s)))) [
  | inl e ↦ rw e (
    in_word-append cut (0x2026 ∷ []) (unfold rstrip in rstrip_cons-in_word c _ (space_off c s h)),
    (
      omega (arith, length-append_one cut 0x2026, length-rstrip (c ∷ take 70 s), length-take 70 s),
      All-append (λ d. ends_line d ≡ false) cut (0x2026 ∷ [])
          (rstrip-IsLine (c ∷ take 70 s) (take-IsLine 71 (c ∷ s) hs))
          ((unfold ends_line in refl), tt),
    ),
  )
  | inr n ↦ rw n (h, (ground (arith), hs))
]
  where
    cut : Text
    cut = rstrip (c ∷ take 70 s)

-- A reason has no subject, or one that is a line of at most 72 characters and starts with no space.
pub clean_subject-IsSubject :
    (reason : Text) → (clean_subject reason ≡ []) ⊎ IsSubject (clean_subject reason)
unfolding clean_subject
clean_subject-IsSubject reason = step (words reason) (words-IsWord reason)
  where
    step :
        (ws : List Text)
        → All IsWord ws
        → (bounded (join (codes " ") ws) ≡ []) ⊎ IsSubject (bounded (join (codes " ") ws))
    step [] h = inl (unfold bounded join in refl)
    step (w ∷ ws) h = inr (bounded-IsSubject _ (join-IsWord w ws h))
