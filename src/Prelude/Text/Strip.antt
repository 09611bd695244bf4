-- ===== src/Prelude/Text/Strip.antt =====
-- Spaces behind a text: what `strip`, `lstrip` and a prefix test do with them.
use dinomem.Prelude.Tests.{Bool-cases}
use dinomem.Prelude.Lists.{All, any}
use dinomem.Prelude.Text.{Text, is_space, lstrip, rstrip_cons, rstrip, strip, starts_with}
use Prim.Native.Nat.{ℕ}
use mathlib.Core.Path.{◌≡◌, refl, ap, ◌∙◌}
use mathlib.Core.Logic.{inl, inr}
use mathlib.Core.Bool.{true, false}
use mathlib.Core.List.{[], ◌∷◌, ◌++◌}
use native.Mathlib.Omega.{arith}

abbrev pub Spaces : Text → Type 0
Spaces = All (λ c. is_space c ≡ true)

-- `s` with spaces behind it
abbrev pub Padded : Text → Text → Type 0
Padded s t = (w : Text) × Spaces w × (t ≡ s ++ w)

pub rstrip-Padded : (s : Text) → Padded (rstrip s) s
unfolding rstrip
rstrip-Padded [] = ([], tt, refl)
rstrip-Padded (c ∷ s) = grow (rstrip s) (rstrip-Padded s)
  where
    grow : (r : Text) → Padded r s → Padded (rstrip_cons c r) (c ∷ s)
    grow [] (w, h, e) = elim (Bool-cases (is_space c)) [
      | inl p ↦ rw p (c ∷ w, (p, h), ap (λ r. c ∷ r) e)
      | inr n ↦ rw n (w, h, ap (λ r. c ∷ r) e)
    ]
    grow (d ∷ r) (w, h, e) = (w, h, ap (λ r. c ∷ r) e)

pub rstrip-Spaces : (w : Text) → Spaces w → rstrip w ≡ []
unfolding rstrip
rstrip-Spaces [] h = refl
rstrip-Spaces (c ∷ w) h = rw (rstrip-Spaces w h.1) (rw h.0)

pub rstrip-append : (s w : Text) → Spaces w → rstrip (s ++ w) ≡ rstrip s
unfolding rstrip
rstrip-append [] w h = rstrip-Spaces w h
rstrip-append (c ∷ s) w h = ap (rstrip_cons c) (rstrip-append s w h)

pub lstrip-Spaces : (w : Text) → Spaces w → lstrip w ≡ []
unfolding lstrip
lstrip-Spaces [] h = refl
lstrip-Spaces (c ∷ w) h = rw h.0 (lstrip-Spaces w h.1)

pub lstrip-Padded : (s w : Text) → Spaces w → Padded (lstrip s) (lstrip (s ++ w))
unfolding lstrip
lstrip-Padded [] w h = ([], tt, lstrip-Spaces w h)
lstrip-Padded (c ∷ s) w h = elim (Bool-cases (is_space c)) [
  | inl p ↦ rw p (lstrip-Padded s w h)
  | inr n ↦ rw n (w, h, refl)
]

pub lstrip-append_empty : (s w : Text) → Spaces w → lstrip s ≡ [] → lstrip (s ++ w) ≡ []
unfolding lstrip
lstrip-append_empty [] w h e = lstrip-Spaces w h
lstrip-append_empty (c ∷ s) w h e = elim (Bool-cases (is_space c)) [
  | inl p ↦ rw p (lstrip-append_empty s w h (rw p at e))
  | inr n ↦ absurd (cc (rw n at e))
]

pub strip-append : (s w : Text) → Spaces w → strip (s ++ w) ≡ strip s
unfolding strip
strip-append s w h =
    let (v, k, e) = lstrip-Padded s w h in ap rstrip e ∙ rstrip-append (lstrip s) v k

pub strip-cons_space : (c : ℕ) (s : Text) → is_space c ≡ true → strip (c ∷ s) ≡ strip s
unfolding strip
strip-cons_space c s h = rw h

abbrev pub Solid : Text → Type 0
Solid p = any is_space p ≡ false

-- A prefix with no space in it is not completed by spaces.
pub starts_with-append :
    (p s w : Text) → Solid p → Spaces w → starts_with p (s ++ w) ≡ starts_with p s
unfolding starts_with
starts_with-append [] s w k h = refl
starts_with-append (x ∷ p) [] [] k h = refl
starts_with-append (x ∷ p) [] (c ∷ w) k h = ground (arith)
starts_with-append (x ∷ p) (y ∷ s) w k h = ground (arith, starts_with-append p s w)
