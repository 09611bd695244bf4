-- ===== src/Session/Filter/Decision.antt =====
-- When a session is reset, and which are skipped.
use dinomem.Prelude.{
  ℕ, ◌≤◌, ◌≡◌, refl, ◌↔◌, ◌⊎◌, inl, inr, Bool, true, false, not, [], ◌∷◌, arith, Bool-cases, filter,
  map,
}
use dinomem.Prelude.Text.{Text}
use dinomem.Session.Chain.{Files}
use dinomem.Session.Filter.{
  SessionData, Sessions, age_trigger, in_grace, compaction_count, should_reset, is_reset,
  skipped_of, filter_sessions_to_reset, or_zero,
}

-- A session is reset exactly when its compaction count is at the ceiling of 5, or it is aged or has
-- compacted twice and was not updated within the grace period.
pub should_reset_iff :
    (force_mode aged graced : Bool) (count : ℕ)
    → (should_reset force_mode aged graced count ≡ true)
      ↔ ((5 ≤ count) ⊎ (((aged ≡ true) ⊎ (2 ≤ count)) × (graced ≡ false)))
unfolding should_reset
should_reset_iff force_mode aged graced count = ground arith

-- The ceiling works in both modes.
should_reset_mode :
    (aged graced : Bool) (count : ℕ)
    → should_reset true aged graced count ≡ should_reset false aged graced count
unfolding should_reset
should_reset_mode aged graced count = ground arith

module _ (dir : Text) (files : Files) where
  is_reset_mode :
      (key : Text) (d : SessionData)
      → is_reset dir true files key d ≡ is_reset dir false files key d
  unfolding is_reset
  is_reset_mode key d =
      should_reset_mode (age_trigger key d) (in_grace d) (compaction_count dir files d)

  -- The force flag makes no difference to the sessions that are chosen.
  pub filter_sessions_to_reset_mode :
      (sessions : Sessions)
      → filter_sessions_to_reset dir true files sessions
        ≡ filter_sessions_to_reset dir false files sessions
  unfolding filter_sessions_to_reset
  filter_sessions_to_reset_mode [] = refl
  filter_sessions_to_reset_mode ((key, d) ∷ sessions) =
      cc (is_reset_mode key d, filter_sessions_to_reset_mode sessions)

  -- The sessions to reset are those of the test, in their order, and the skipped ones are the others.
  pub filter_sessions_to_reset_lem :
      (force_mode : Bool) (sessions : Sessions)
      → filter_sessions_to_reset dir force_mode files sessions ≡ (
        filter (λ s. is_reset dir force_mode files s.0 s.1) sessions,
        map
            (λ s. skipped_of dir files s.0 s.1)
            (filter (λ s. not (is_reset dir force_mode files s.0 s.1)) sessions),
      )
  unfolding filter_sessions_to_reset
  filter_sessions_to_reset_lem force_mode [] = refl
  filter_sessions_to_reset_lem force_mode ((key, d) ∷ sessions) =
      elim (Bool-cases (is_reset dir force_mode files key d)) [
        | inl y ↦ rw y (rw (filter_sessions_to_reset_lem force_mode sessions))
        | inr n ↦ rw n (rw (filter_sessions_to_reset_lem force_mode sessions))
      ]

  -- A count of 5 or more in the registry resets the session in both modes, however recent it is.
  pub storm_is_reset :
      (force_mode : Bool) (key : Text) (d : SessionData)
      → 5 ≤ or_zero d.compaction_count
      → is_reset dir force_mode files key d ≡ true
  unfolding is_reset should_reset compaction_count
  storm_is_reset force_mode key d h = ground arith
