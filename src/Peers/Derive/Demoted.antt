-- ===== src/Peers/Derive/Demoted.antt =====
-- What is written of a person who is no owner.
use dinomem.Prelude.{
  ℕ, ◌≡◌, refl, inl, inr, ◌⊎◌, Bool, true, false, ◌||◌, List, [], ◌∷◌, ◌++◌, All, Bool-cases,
  if◌then◌else◌,
}
use dinomem.Prelude.Text.{Text, text_eq, strip, contains}
use dinomem.Authority.Gate.{flag, is_authoritative, gate_peer_fact, observed, is_personal}
use dinomem.Authority.Directive.{classify_scope}
use dinomem.Peers.Graph.{clean}
use dinomem.Peers.Derive.{Fact, fact_line, fact_lines}

-- the line of a personal fact, or of an observation about the person
abbrev pub IsHarmless : (ℕ → Bool) → Text → Text → Type 0
IsHarmless is_word today line =
    (t : Text) × ((c : Text) × ((line ≡ fact_line t c today)
        × ((is_personal (classify_scope is_word t) ≡ true) ⊎ ((s : Text) × (t ≡ observed ++ s)))))

out_text-IsHarmless :
    (is_word : ℕ → Bool) (text : Text)
    → (is_personal (classify_scope is_word (gate_peer_fact is_word text (flag false)).out_text)
        ≡ true)
      ⊎ ((s : Text) × ((gate_peer_fact is_word text (flag false)).out_text ≡ observed ++ s))
unfolding gate_peer_fact is_authoritative
out_text-IsHarmless is_word text = elim (Bool-cases (is_personal (classify_scope is_word text))) [
  | inl e ↦ rw e (inl e)
  | inr n ↦ rw n (inr (strip text, refl))
]

-- Every line that is written for the facts or the beat of a person who is no owner is a personal fact's, or an
-- observation that the person asked for something.
pub fact_lines-IsHarmless :
    (is_word : ℕ → Bool) (today txt : Text) (fs : List Fact)
    → All (IsHarmless is_word today) (fact_lines is_word false today txt fs)
unfolding fact_lines
fact_lines-IsHarmless is_word today txt [] = tt
fact_lines-IsHarmless is_word today txt (f ∷ fs) =
    step (text_eq t [] || contains t txt) (fact_lines-IsHarmless is_word today txt fs)
  where
    t : Text
    t = (gate_peer_fact is_word (clean f.text) (flag false)).out_text

    step :
        (b : Bool)
        → All (IsHarmless is_word today) (fact_lines is_word false today txt fs)
        → All (IsHarmless is_word today) (
            if b
            then fact_lines is_word false today txt fs
            else fact_line t f.confidence today ∷ fact_lines is_word false today txt fs)
    step true h = h
    step false h = ((t, (f.confidence, (refl, out_text-IsHarmless is_word (clean f.text)))), h)
