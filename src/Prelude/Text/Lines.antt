-- ===== src/Prelude/Text/Lines.antt =====
-- Python's lines: `str.splitlines`, with the ends of lines dropped or kept, and the translation of ends of
-- lines by a file that is read in text mode.
use dinomem.Prelude.Tests.{◌==◌, leb, Bool-cases, if◌then◌else◌}
use dinomem.Prelude.Text.{Text, cons_first, starts_with, contains}
use dinomem.Prelude.Text.Split.{Lacks}
use Prim.Native.Nat.{ℕ}
use mathlib.Core.Path.{◌≡◌, refl, ap, ◌∙◌}
use mathlib.Core.Logic.{inl, inr}
use mathlib.Core.Bool.{Bool, true, false, not, ◌&&◌, ◌||◌}
use mathlib.Core.List.{List, [], ◌∷◌, ◌++◌}
use native.Mathlib.Omega.{arith}

-- the characters at which `str.splitlines` ends a line, besides the pair of a return and a newline
unfoldable pub ends_line : ℕ → Bool
ends_line c =
    leb 10 c && leb c 13 || leb 28 c && leb c 30 || c == 0x85 || c == 0x2028 || c == 0x2029

abbrev pub next_is_newline : Text → Bool
next_is_newline [] = false
next_is_newline (c ∷ s) = c == 10

-- `str.splitlines()`: no empty line behind the last end of a line. Of a return and a newline the
-- newline ends the line.
unfoldable pub splitlines : Text → List Text
unfolding ends_line cons_first
splitlines [] = []
splitlines (c ∷ s) =
    let rest = splitlines s in
    if c == 13 && next_is_newline s
    then rest
    else if ends_line c
    then [] ∷ rest
    else cons_first c rest

-- `str.splitlines(keepends=True)`
unfoldable pub splitlines_keep : Text → List Text
unfolding ends_line cons_first
splitlines_keep [] = []
splitlines_keep (c ∷ s) =
    let rest = splitlines_keep s in
    if ends_line c && not (c == 13 && next_is_newline s) then (c ∷ []) ∷ rest else cons_first c rest

-- `"".join(lines)`
unfoldable pub join_all : List Text → Text
join_all [] = []
join_all (l ∷ ls) = l ++ join_all ls

-- what `read_text` makes of the ends of lines
unfoldable pub translate : Text → Text
translate [] = []
translate (c ∷ s) =
    let rest = translate s in
    if c == 13 then (if next_is_newline s then rest else 10 ∷ rest) else c ∷ rest

join_all-cons_first : (c : ℕ) (ls : List Text) → join_all (cons_first c ls) ≡ c ∷ join_all ls
unfolding join_all cons_first
join_all-cons_first c [] = refl
join_all-cons_first c (l ∷ ls) = refl

-- The lines with their ends, one behind the other, are the text.
pub join_all-splitlines_keep : (s : Text) → join_all (splitlines_keep s) ≡ s
unfolding splitlines_keep
join_all-splitlines_keep [] = unfold join_all in refl
join_all-splitlines_keep (c ∷ s) =
    step (splitlines_keep s) (ends_line c && not (c == 13 && next_is_newline s))
      (join_all-splitlines_keep s)
  where
    step :
        (rest : List Text) (b : Bool)
        → join_all rest ≡ s
        → join_all (if b then (c ∷ []) ∷ rest else cons_first c rest) ≡ c ∷ s
    step rest true h = unfold join_all in ap (λ r. c ∷ r) h
    step rest false h = join_all-cons_first c rest ∙ ap (λ r. c ∷ r) h

pub translate-Lacks : (s : Text) → Lacks 13 (translate s)
unfolding translate
translate-Lacks [] = tt
translate-Lacks (c ∷ s) = elim (Bool-cases (c == 13)) [
  | inl e ↦ rw e (elim (Bool-cases (next_is_newline s)) [
    | inl n ↦ rw n (translate-Lacks s)
    | inr n ↦ rw n (refl, translate-Lacks s)
  ])
  | inr n ↦ rw n (n, translate-Lacks s)
]

-- A text with no carriage return is read as it was written.
pub translate_of_Lacks : (s : Text) → Lacks 13 s → translate s ≡ s
unfolding translate
translate_of_Lacks [] h = refl
translate_of_Lacks (c ∷ s) h = rw h.0 (ap (λ r. c ∷ r) (translate_of_Lacks s h.1))

starts_with-append_self : (p s : Text) → starts_with p (p ++ s) ≡ true
unfolding starts_with
starts_with-append_self [] s = refl
starts_with-append_self (c ∷ p) s = ground (arith, starts_with-append_self p s)

pub contains-append : (p a b : Text) → contains p (a ++ (p ++ b)) ≡ true
unfolding contains
contains-append p [] b = contains_start (p ++ b) (starts_with-append_self p b)
  where
    contains_start : (s : Text) → starts_with p s ≡ true → contains p s ≡ true
    contains_start [] h = h
    contains_start (c ∷ s) h = rw h
contains-append p (c ∷ a) b = ground (arith, contains-append p a b)
