-- ===== src/Prelude/Text/Split.antt =====
-- Lines: `split` undoes `join`, and what stripping a text does to its lines.
use dinomem.Prelude.Tests.{◌==◌, Bool-cases, if◌then◌else◌}
use dinomem.Prelude.Lists.{any, All, filter}
use dinomem.Prelude.Text.{Text, is_space, lstrip, rstrip, strip, cons_first, split, join}
use dinomem.Prelude.Text.Strip.{Spaces, rstrip-Padded, strip-append, strip-cons_space}
use Prim.Native.Nat.{ℕ}
use mathlib.Core.Path.{◌≡◌, refl, ap, sym, ◌∙◌}
use mathlib.Core.Logic.{inl, inr}
use mathlib.Core.Bool.{Bool, true, false}
use mathlib.Core.List.{List, [], ◌∷◌, ◌++◌, map}
use native.Mathlib.Omega.{arith}

-- The text has no separator.
abbrev pub Lacks : ℕ → Text → Type 0
Lacks sep = All (λ c. (c == sep) ≡ false)

-- by evaluation, for a literal
pub any-Lacks : (sep : ℕ) (s : Text) → any (λ c. c == sep) s ≡ false → Lacks sep s
any-Lacks sep [] h = tt
any-Lacks sep (c ∷ s) h = (ground arith, any-Lacks sep s (ground arith))

All-cons_first :
    (sep c : ℕ) (ls : List Text)
    → (c == sep) ≡ false
    → All (Lacks sep) ls
    → All (Lacks sep) (cons_first c ls)
unfolding cons_first
All-cons_first sep c [] n h = ((n, tt), tt)
All-cons_first sep c (l ∷ ls) n h = ((n, h.0), h.1)

pub split-Lacks : (sep : ℕ) (s : Text) → All (Lacks sep) (split sep s)
unfolding split
split-Lacks sep [] = (tt, tt)
split-Lacks sep (c ∷ s) = elim (Bool-cases (c == sep)) [
  | inl e ↦ rw e (tt, split-Lacks sep s)
  | inr n ↦ rw n (All-cons_first sep c (split sep s) n (split-Lacks sep s))
]

pub split_of_Lacks : (sep : ℕ) (l : Text) → Lacks sep l → split sep l ≡ l ∷ []
unfolding split
split_of_Lacks sep [] h = refl
split_of_Lacks sep (c ∷ l) h = rw h.0 (rw (split_of_Lacks sep l h.1) (unfold cons_first in refl))

same_number : (c : ℕ) → (c == c) ≡ true
same_number c = ground arith

pub split-append_sep :
    (sep : ℕ) (l s : Text) → Lacks sep l → split sep (l ++ sep ∷ s) ≡ l ∷ split sep s
unfolding split
split-append_sep sep [] s h = rw (same_number sep)
split-append_sep sep (c ∷ l) s h =
    rw h.0 (rw (split-append_sep sep l s h.1) (unfold cons_first in refl))

-- `sep.join(lines).split(sep)` is the lines, if there is one and none holds the separator.
pub split-join :
    (sep : ℕ) (l : Text) (ls : List Text)
    → All (Lacks sep) (l ∷ ls)
    → split sep (join (sep ∷ []) (l ∷ ls)) ≡ l ∷ ls
unfolding join
split-join sep l [] h = split_of_Lacks sep l h.0
split-join sep l (m ∷ ls) h =
    split-append_sep sep l (join (sep ∷ []) (m ∷ ls)) h.0
    ∙ ap (λ r. l ∷ r) (split-join sep m ls h.1)

-- The second lines are the first, the last of them with spaces behind it, and blank lines.
pub data Trail : List Text → List Text → Type 0 where
  last : (l w : Text) (ws : List Text) → Spaces w → All Spaces ws → Trail (l ∷ []) ((l ++ w) ∷ ws)
  more : (l : Text) {ls ms : List Text} → Trail ls ms → Trail (l ∷ ls) (l ∷ ms)

Trail-cons_first :
    (c : ℕ) {ls ms : List Text} → Trail ls ms → Trail (cons_first c ls) (cons_first c ms)
unfolding cons_first
Trail-cons_first c (last l w ws h k) = last (c ∷ l) w ws h k
Trail-cons_first c (more l t) = more (c ∷ l) t

blank_lines : (sep : ℕ) (w : Text) → Spaces w → All Spaces (split sep w)
unfolding split
blank_lines sep [] h = (tt, tt)
blank_lines sep (c ∷ w) h = elim (Bool-cases (c == sep)) [
  | inl e ↦ rw e (tt, blank_lines sep w h.1)
  | inr n ↦ rw n (first (split sep w) (blank_lines sep w h.1))
]
  where
    first : (ls : List Text) → All Spaces ls → All Spaces (cons_first c ls)
    first [] k = ((h.0, tt), tt)
    first (l ∷ ls) k = ((h.0, k.0), k.1)

blank-Trail : (sep : ℕ) (w : Text) → Spaces w → Trail ([] ∷ []) (split sep w)
unfolding split
blank-Trail sep [] h = last [] [] [] tt tt
blank-Trail sep (c ∷ w) h = elim (Bool-cases (c == sep)) [
  | inl e ↦ rw e (last [] [] (split sep w) tt (blank_lines sep w h.1))
  | inr n ↦ rw n (first (split sep w) (blank_lines sep w h.1))
]
  where
    first : (ls : List Text) → All Spaces ls → Trail ([] ∷ []) (cons_first c ls)
    first [] k = last [] (c ∷ []) [] (h.0, tt) tt
    first (l ∷ ls) k = last [] (c ∷ l) ls (h.0, k.0) k.1

pub split-append_Spaces :
    (sep : ℕ) (s w : Text) → Spaces w → Trail (split sep s) (split sep (s ++ w))
unfolding split
split-append_Spaces sep [] w h = blank-Trail sep w h
split-append_Spaces sep (c ∷ s) w h = elim (Bool-cases (c == sep)) [
  | inl e ↦ rw e (more [] (split-append_Spaces sep s w h))
  | inr n ↦ rw n (Trail-cons_first c (split-append_Spaces sep s w h))
]

-- A test on lines that spaces round a line do not change, and that no empty line passes.
pub record IgnoresSpace (q : Text → Bool) : Type 0 where
  pub none_empty : q [] ≡ false
  pub behind : (l w : Text) → Spaces w → q (l ++ w) ≡ q l
  pub before : (c : ℕ) (l : Text) → is_space c ≡ true → q (c ∷ l) ≡ q l

-- The lines that pass, without the spaces round them.
unfoldable pub marked : (Text → Bool) → List Text → List Text
marked q ls = map strip (filter q ls)

module _ (q : Text → Bool) (i : IgnoresSpace q) where
  marked_blank : (ws : List Text) → All Spaces ws → marked q ws ≡ []
  unfolding marked
  marked_blank [] h = refl
  marked_blank (w ∷ ws) h = rw (i.behind [] w h.0 ∙ i.none_empty) (marked_blank ws h.1)

  marked-Trail : {ls ms : List Text} → Trail ls ms → marked q ls ≡ marked q ms
  unfolding marked
  marked-Trail (last l w ws h k) = rw (i.behind l w h) (tail (q l) (marked_blank ws k))
    where
      tail :
          (b : Bool)
          → map strip (filter q ws) ≡ []
          → map strip (if b then l ∷ [] else [])
            ≡ map strip (if b then (l ++ w) ∷ filter q ws else filter q ws)
      tail true e = cc (strip-append l w h)
      tail false e = sym e
  marked-Trail (more l {ls = xs} {ms = ys} t) =
      step (q l) (filter q xs) (filter q ys) (marked-Trail t)
    where
      step :
          (b : Bool) (xs ys : List Text)
          → map strip xs ≡ map strip ys
          → map strip (if b then l ∷ xs else xs) ≡ map strip (if b then l ∷ ys else ys)
      step true xs ys e = ap (λ r. strip l ∷ r) e
      step false xs ys e = e

  marked-cons_first :
      (c : ℕ) (l : Text) (ls : List Text)
      → is_space c ≡ true
      → marked q ((c ∷ l) ∷ ls) ≡ marked q (l ∷ ls)
  unfolding marked
  marked-cons_first c l ls h = rw (i.before c l h) (step (q l))
    where
      step :
          (b : Bool)
          → map strip (if b then (c ∷ l) ∷ filter q ls else filter q ls)
            ≡ map strip (if b then l ∷ filter q ls else filter q ls)
      step true = ap (λ r. r ∷ map strip (filter q ls)) (strip-cons_space c l h)
      step false = refl

  marked-lstrip : (sep : ℕ) (s : Text) → marked q (split sep (lstrip s)) ≡ marked q (split sep s)
  unfolding lstrip
  marked-lstrip sep [] = refl
  marked-lstrip sep (c ∷ s) = elim (Bool-cases (is_space c)) [
    | inl p ↦ rw p (marked-lstrip sep s ∙ sym (leading p))
    | inr n ↦ rw n
  ]
    where
      first : (ls : List Text) → is_space c ≡ true → marked q (cons_first c ls) ≡ marked q ls
      first [] p =
          unfold cons_first in marked-cons_first c [] [] p ∙ (unfold marked in rw i.none_empty)
      first (l ∷ ls) p = unfold cons_first in marked-cons_first c l ls p

      leading : is_space c ≡ true → marked q (split sep (c ∷ s)) ≡ marked q (split sep s)
      leading p =
          unfold split in
          elim (Bool-cases (c == sep)) [
            | inl e ↦ rw e (unfold marked in rw i.none_empty)
            | inr n ↦ rw n (first (split sep s) p)
          ]

  -- Stripping a text keeps the marked lines.
  pub marked-strip : (sep : ℕ) (s : Text) → marked q (split sep (strip s)) ≡ marked q (split sep s)
  unfolding strip
  marked-strip sep s =
      let (w, h, e) = rstrip-Padded (lstrip s) in
      marked-Trail (split-append_Spaces sep (rstrip (lstrip s)) w h)
      ∙ (ap (λ t. marked q (split sep t)) (sym e) ∙ marked-lstrip sep s)

  -- So does a separator behind it that is a space.
  pub marked-strip_end :
      (sep : ℕ) (s : Text)
      → is_space sep ≡ true
      → marked q (split sep (strip s ++ sep ∷ [])) ≡ marked q (split sep s)
  marked-strip_end sep s h =
      sym (marked-Trail (split-append_Spaces sep (strip s) (sep ∷ []) (h, tt))) ∙ marked-strip sep s

  -- The marked lines of a text joined from lines are the marked ones among those.
  pub marked-join :
      (sep : ℕ) (ls : List Text)
      → All (Lacks sep) ls
      → marked q (split sep (join (sep ∷ []) ls)) ≡ marked q ls
  marked-join sep [] h = unfold join split marked in rw i.none_empty
  marked-join sep (l ∷ ls) h = ap (marked q) (split-join sep l ls h)
