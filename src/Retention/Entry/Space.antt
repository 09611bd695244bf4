-- ===== src/Retention/Entry/Space.antt =====
-- Spaces round a line, and the tests on it.
use dinomem.Prelude.{
  ℕ, ◌≡◌, refl, inl, inr, Bool, true, false, ◌&&◌, not, [], ◌∷◌, ◌++◌, ◌==◌, arith, Bool-cases,
}
use dinomem.Prelude.Text.{Text, codes, is_space, lstrip}
use dinomem.Prelude.Text.Strip.{
  Spaces, Padded, lstrip-Padded, lstrip-Spaces, lstrip-append_empty, starts_with-append,
}
use dinomem.Prelude.Text.Split.{IgnoresSpace}
use dinomem.Retention.Entry.{
  match_tag, skip_dash, entry_tag, space_then_text, bullet, is_bullet, line_is_valid_entry,
  line_is_entry,
}

match_tag-append : (s w : Text) → Spaces w → match_tag (s ++ w) ≡ match_tag s
unfolding match_tag is_space
match_tag-append s w h = simp (
  starts_with-append (codes "[valid]") s w refl h,
  starts_with-append (codes "[invalidated]") s w refl h,
  starts_with-append (codes "[uncertain]") s w refl h,
  starts_with-append (codes "[noise]") s w refl h,
)

dash_not_space : (c : ℕ) → is_space c ≡ true → (c == b'-') ≡ false
unfolding is_space
dash_not_space c h = ground arith

skip_dash-Padded : (s w : Text) → Spaces w → Padded (skip_dash s) (skip_dash (s ++ w))
unfolding skip_dash
skip_dash-Padded [] [] h = ([], tt, refl)
skip_dash-Padded [] (c ∷ w) h = rw (dash_not_space c h.0) (c ∷ w, h, refl)
skip_dash-Padded (c ∷ s) w h = elim (Bool-cases (c == b'-')) [
  | inl p ↦ rw p (w, h, refl)
  | inr n ↦ rw n (w, h, refl)
]

entry_tag-append : (l w : Text) → Spaces w → entry_tag (l ++ w) ≡ entry_tag l
unfolding entry_tag
entry_tag-append l w h =
    let (w₁, h₁, e₁) = lstrip-Padded l w h in
    let (w₂, h₂, e₂) = skip_dash-Padded (lstrip l) w₁ h₁ in
    let (w₃, h₃, e₃) = lstrip-Padded (skip_dash (lstrip l)) w₂ h₂ in
    rw e₁ (rw e₂ (rw e₃ (match_tag-append (lstrip (skip_dash (lstrip l))) w₃ h₃)))

entry_tag-cons : (c : ℕ) (l : Text) → is_space c ≡ true → entry_tag (c ∷ l) ≡ entry_tag l
unfolding entry_tag lstrip
entry_tag-cons c l h = rw h

space_then_text-append : (s w : Text) → Spaces w → space_then_text (s ++ w) ≡ space_then_text s
unfolding space_then_text
space_then_text-append [] [] h = refl
space_then_text-append [] (c ∷ w) h = rw h.0 (rw (lstrip-Spaces w h.1))
space_then_text-append (c ∷ s) w h = rest (lstrip s) refl (lstrip-Padded s w h)
  where
    rest :
        (r : Text)
        → lstrip s ≡ r
        → Padded r (lstrip (s ++ w))
        → (is_space c && elim (lstrip (s ++ w)) [ [] ↦ false | _ ∷ _ ↦ true ])
          ≡ (is_space c && elim r [ [] ↦ false | _ ∷ _ ↦ true ])
    rest [] e _ = rw (lstrip-append_empty s w h e)
    rest (d ∷ r) _ (v, k, e) = rw e

bullet-append : (s w : Text) → Spaces w → bullet (s ++ w) ≡ bullet s
unfolding bullet
bullet-append [] [] h = refl
bullet-append [] (c ∷ w) h = rw (dash_not_space c h.0)
bullet-append (c ∷ s) w h = rw (space_then_text-append s w h)

is_bullet-append : (l w : Text) → Spaces w → is_bullet (l ++ w) ≡ is_bullet l
unfolding is_bullet
is_bullet-append l w h = let (v, k, e) = lstrip-Padded l w h in rw e (bullet-append (lstrip l) v k)

is_bullet-cons : (c : ℕ) (l : Text) → is_space c ≡ true → is_bullet (c ∷ l) ≡ is_bullet l
unfolding is_bullet lstrip
is_bullet-cons c l h = rw h

pub line_is_valid_entry-IgnoresSpace : IgnoresSpace line_is_valid_entry
unfolding line_is_valid_entry
line_is_valid_entry-IgnoresSpace = record {
  none_empty = unfold entry_tag in refl;
  behind = λ l w h. rw (entry_tag-append l w h);
  before = λ c l h. rw (entry_tag-cons c l h);
}

-- The test of the lines that `prune_file` drops.
unfoldable pub is_dropped : Text → Bool
is_dropped line = line_is_entry line && not (line_is_valid_entry line)

pub is_dropped-IgnoresSpace : IgnoresSpace is_dropped
unfolding is_dropped line_is_valid_entry line_is_entry
is_dropped-IgnoresSpace = record {
  none_empty = unfold entry_tag is_bullet in refl;
  behind = λ l w h. cc (entry_tag-append l w h, is_bullet-append l w h);
  before = λ c l h. cc (entry_tag-cons c l h, is_bullet-cons c l h);
}
