-- ===== src/Extract/Store/Gated.antt =====
-- What of a summary reaches the files: no rules from somebody who is no owner.
use dinomem.Prelude.{
  ℕ, ◌≡◌, refl, inl, inr, Bool, true, false, none, some, List, [], ◌∷◌, Bool-cases, All,
}
use dinomem.Prelude.Text.{Text}
use dinomem.Retention.Run.{Directory}
use dinomem.Authority.Owners.{is_owner}
use dinomem.Authority.Directive.{Scope, personalization, directive, classify_scope}
use dinomem.Authority.Gate.{is_authoritative, is_personal, gate_world_fact}
use dinomem.Extract.Summary.{Summary}
use dinomem.Extract.Known.{existing_items}
use dinomem.Extract.Contradiction.{Judge, Checked, kept, raised, contradiction_check_items}
use dinomem.Extract.Contradiction.Spared.{AllKept, check_items-All}
use dinomem.Extract.Store.{
  Setting, gate_items, gate_list, Facts, gated_facts, Prepared, after_check, check_facts,
}

-- no rule for the assistant, as the classifier sees it
abbrev pub IsPersonal : (ℕ → Bool) → Text → Type 0
IsPersonal is_word item = classify_scope is_word item ≡ personalization

abbrev pub AllFacts : (Text → Type 0) → Facts → Type 0
AllFacts P f = All P f.decisions × All P f.corrections × All P f.operational × All P f.insights

personal_of : (s : Scope) → is_personal s ≡ true → s ≡ personalization
personal_of personalization h = refl
personal_of directive h = absurd (cc)

gate_items-IsPersonal :
    (is_word : ℕ → Bool) (items : List Text) → All (IsPersonal is_word) (gate_items is_word items)
unfolding gate_items gate_world_fact is_authoritative
gate_items-IsPersonal is_word [] = tt
gate_items-IsPersonal is_word (item ∷ items) =
    elim (Bool-cases (is_personal (classify_scope is_word item))) [
      | inl e ↦
          rw e (personal_of (classify_scope is_word item) e, gate_items-IsPersonal is_word items)
      | inr n ↦ rw n (gate_items-IsPersonal is_word items)
    ]

gate_list-IsPersonal :
    (is_word : ℕ → Bool) (b : Bool) (items : List Text)
    → b ≡ false
    → All (IsPersonal is_word) (gate_list is_word b items)
unfolding gate_list
gate_list-IsPersonal is_word b items e = rw e (gate_items-IsPersonal is_word items)

contradiction-All :
    (P : Text → Type 0) (j : Judge) (peers : Directory) (items : List Text) (dir : Directory)
    → All P items
    → AllKept P (contradiction_check_items j peers items dir).0
unfolding contradiction_check_items
contradiction-All P j peers items dir h =
    check_items-All P j (existing_items j.upper dir peers) items dir h

abbrev Holds : (Text → Type 0) → Prepared → Type 0
Holds P (none, dir) = Unit
Holds P (some f, dir) = AllFacts P f

after_check-Holds :
    (P : Text → Type 0) (c : Checked × Directory) (rest : List Text → Directory → Prepared)
    → AllKept P c.0
    → ((items : List Text) (dir : Directory) → All P items → Holds P (rest items dir))
    → Holds P (after_check c rest)
after_check-Holds P (kept items, dir) rest k h = h items dir k
after_check-Holds P (raised, dir) rest k h = tt

check_facts-Holds :
    (P : Text → Type 0) (w : Setting) (f : Facts) (dir : Directory)
    → AllFacts P f
    → Holds P (check_facts w f dir)
unfolding check_facts
check_facts-Holds P w f dir (d, c, o, i) =
    after_check-Holds P _ _ (contradiction-All P w.judge w.peers f.decisions dir d) λ ds d₁ hd.
      after_check-Holds P _ _ (contradiction-All P w.judge w.peers f.corrections d₁ c) λ cs d₂ hc.
        after_check-Holds P _ _ (contradiction-All P w.judge w.peers f.operational d₂ o) λ os d₃ ho.
          after_check-Holds P _ _ (contradiction-All P w.judge w.peers f.insights d₃ i)
            λ is d₄ hi. (hd, hc, ho, hi)

-- Of a session whose sender is no owner, no decision, correction, operational item or insight that is to be
-- written sets a rule for the assistant, with its date of expiry and after the comparison with the memory.
pub check_facts-IsPersonal :
    (w : Setting) (s : Summary) (dir after : Directory) (facts : Facts)
    → is_owner w.environment s.source_id ≡ false
    → check_facts w (gated_facts w s) dir ≡ (some facts, after)
    → AllFacts (IsPersonal w.judge.python.is_word) facts
check_facts-IsPersonal w s dir after facts n e =
    rw e at (check_facts-Holds (IsPersonal w.judge.python.is_word) w (gated_facts w s) dir gated)
  where
    gated : AllFacts (IsPersonal w.judge.python.is_word) (gated_facts w s)
    gated =
        unfold gated_facts in
        (
          gate_list-IsPersonal w.judge.python.is_word _ _ n,
          gate_list-IsPersonal w.judge.python.is_word _ _ n,
          gate_list-IsPersonal w.judge.python.is_word _ _ n,
          gate_list-IsPersonal w.judge.python.is_word _ _ n,
        )
