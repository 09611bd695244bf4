-- ===== src/Route/DupScan/Exact.antt =====
-- The scan finds a repeated block exactly when there is one.
use dinomem.Prelude.{
  ℕ, zero, suc, ◌+◌, ◌-◌, ◌≤◌, ◌<◌, ◌≡◌, ◌↔◌, refl, sym, ap, ◌∙◌, inl, inr, true, false, Option,
  none, some, List, [], ◌∷◌, arith, leb, leb→le, Bool-cases, map, length,
}
use dinomem.Prelude.Text.{Text, text_eq, text_eq_iff}
use dinomem.Route.DupScan.{norm_line, window_key, first_seen, scan, dup_at, dup_scan}

module _ (key : ℕ → Option Text) (min_run : ℕ) where
  -- Two windows with one key that do not overlap, the second of them before a line.
  abbrev pub Repeated : ℕ → Type 0
  Repeated n =
      (a b : ℕ) × (k : Text) × (key a ≡ some k) × (key b ≡ some k) × (a + min_run ≤ b) × (b < n)

  -- no two windows before a line are such
  abbrev Unrepeated : ℕ → Type 0
  Unrepeated n =
      (a b : ℕ) (k : Text) → key a ≡ some k → key b ≡ some k → a + min_run ≤ b → b < n → ⊥

  -- The keys seen are those of the windows before a line, each with its first line.
  record Seen (seen : List (Text × ℕ)) (i : ℕ) : Type 0 where
    sound : (k : Text) (a : ℕ) → first_seen k seen ≡ some a → (key a ≡ some k) × (a < i)
    first :
        (k : Text) (a : ℕ)
        → a < i
        → key a ≡ some k
        → (b : ℕ) × (first_seen k seen ≡ some b) × (b ≤ a)

  some_text : {j k : Text} → some j ≡ some k → j ≡ k
  some_text p = cc

  some_number : {j k : ℕ} → some j ≡ some k → j ≡ k
  some_number p = cc

  Seen-nil : Seen [] 0
  unfolding first_seen
  Seen-nil = record { sound = λ k a h. absurd (cc h); first = λ k a h e. absurd (omega arith) }

  -- The present window has no key, or one that is seen.
  Seen-old :
      (seen : List (Text × ℕ)) (i : ℕ)
      → Seen seen i
      → ((k : Text) → key i ≡ some k → (a : ℕ) × (first_seen k seen ≡ some a))
      → Seen seen (suc i)
  Seen-old seen i s old = record {
    sound = λ k a h. let (e, l) = s.sound k a h in (e, omega arith);
    first = λ k a h e. elim (Bool-cases (leb i a)) [
      | inl le ↦
          let same : a ≡ i = omega (arith, leb→le i a le) in
          let (b, q) = old k (rw same at e) in (b, q, omega (arith, (s.sound k b q).1))
      | inr lt ↦ s.first k a (ground arith) e
    ];
  }

  Seen-new :
      (seen : List (Text × ℕ)) (i : ℕ) (j : Text)
      → Seen seen i
      → key i ≡ some j
      → first_seen j seen ≡ none
      → Seen ((j, i) ∷ seen) (suc i)
  unfolding first_seen
  Seen-new seen i j s e absent = record {
    sound = λ k a h. elim (Bool-cases (text_eq j k)) [
      | inl q ↦
          let here : i ≡ a = some_number (rw q at h) in
          (rw (sym here) (e ∙ ap some ((text_eq_iff j k).0 q)), omega arith)
      | inr q ↦ let (f, l) = s.sound k a (rw q at h) in (f, omega arith)
    ];
    first = λ k a h f. elim (Bool-cases (text_eq j k)) [
      | inl q ↦ (i, rw q refl, not_before k a h f ((text_eq_iff j k).0 q))
      | inr q ↦ elim (Bool-cases (leb i a)) [
        | inl le ↦
            let same : a ≡ i = omega (arith, leb→le i a le) in
            absurd (differ k q (some_text (sym e ∙ (rw same at f))))
        | inr lt ↦ let (b, g, l) = s.first k a (ground arith) f in (b, rw q g, l)
      ]
    ];
  }
    where
      differ : (k : Text) → text_eq j k ≡ false → j ≡ k → ⊥
      differ k q p = cc (sym q ∙ (text_eq_iff j k).1 p)

      not_before : (k : Text) (a : ℕ) → a < suc i → key a ≡ some k → j ≡ k → i ≤ a
      not_before k a h f p = elim (Bool-cases (leb i a)) [
        | inl le ↦ leb→le i a le
        | inr lt ↦
            let (b, g, l) = s.first j a (ground arith) (rw (sym p) at f) in
            absurd (cc (sym absent ∙ g))
      ]

  -- One more window, of which every earlier window with its key overlaps it.
  Unrepeated-suc :
      (i : ℕ)
      → Unrepeated i
      → ((a : ℕ) (k : Text) → key a ≡ some k → key i ≡ some k → a + min_run ≤ i → ⊥)
      → Unrepeated (suc i)
  Unrepeated-suc i u last a b k ea eb d l = elim (Bool-cases (leb i b)) [
    | inl le ↦
        let same : b ≡ i = omega (arith, leb→le i b le) in
        last a k ea (rw same at eb) (rw same at d)
    | inr lt ↦ u a b k ea eb d (ground arith)
  ]

  module _ (positive : 0 < min_run) where
    abbrev Outcome : Option (ℕ × ℕ) → ℕ → Type 0
    Outcome none n = Unrepeated n
    Outcome (some d) n = Repeated n

    shift : (i left : ℕ) → suc i + left ≡ i + suc left
    shift i left = omega arith

    scan-Outcome :
        (seen : List (Text × ℕ)) (i left : ℕ)
        → Seen seen i
        → Unrepeated i
        → Outcome (scan key min_run seen i left) (i + left)
    unfolding scan
    scan-Outcome seen i zero s u = rw (add_nil i) u
      where
        add_nil : (n : ℕ) → n + 0 ≡ n
        add_nil n = omega arith
    scan-Outcome seen i (suc left) s u =
        by_key (key i) refl (scan-Outcome seen (suc i) left)
          (λ j. scan-Outcome ((j, i) ∷ seen) (suc i) left)
      where
        Goal : Option (ℕ × ℕ) → Type 0
        Goal o = Outcome o (i + suc left)

        by_seen :
            (k : Text) (o : Option ℕ)
            → key i ≡ some k
            → first_seen k seen ≡ o
            → (Seen seen (suc i)
                → Unrepeated (suc i)
                → Outcome (scan key min_run seen (suc i) left) (suc i + left))
            → (Seen ((k, i) ∷ seen) (suc i)
                → Unrepeated (suc i)
                → Outcome (scan key min_run ((k, i) ∷ seen) (suc i) left) (suc i + left))
            → Goal (scan key min_run seen i (suc left))
        by_seen k none e q old new =
            rw (e, scan)
              (rw (q, scan)
                (rw (shift i left) at (
                  new (Seen-new seen i k s e q) (
                    Unrepeated-suc i u λ a j ea ej d.
                      let (b, g, l) =
                        s.first k a (omega arith) (rw (some_text (sym ej ∙ e)) at ea) in
                      cc (sym q ∙ g)))))
        by_seen k (some a₀) e q old new = elim (Bool-cases (leb min_run (i - a₀))) [
          | inl far ↦
              rw (e, scan)
                (rw (q, scan)
                  (rw (far, scan)
                    (
                      a₀,
                      i,
                      k,
                      (s.sound k a₀ q).0,
                      e,
                      omega (arith, leb→le min_run (i - a₀) far, (s.sound k a₀ q).1),
                      omega arith,
                    )))
          | inr near ↦
              rw (e, scan)
                (rw (q, scan)
                  (rw (near, scan)
                    (rw (shift i left) at (
                      old (Seen-old seen i s λ j ej. (a₀, rw (some_text (sym ej ∙ e)) q)) (
                        Unrepeated-suc i u λ a j ea ej d.
                          let (b, g, l) =
                            s.first k a (omega arith) (rw (some_text (sym ej ∙ e)) at ea) in
                          too_near a b (some_number (sym g ∙ q)) l d near)))))
        ]
          where
            too_near :
                (a b : ℕ) → b ≡ a₀ → b ≤ a → a + min_run ≤ i → leb min_run (i - a₀) ≡ false → ⊥
            too_near a b p l d n = ground (arith)

        by_key :
            (o : Option Text)
            → key i ≡ o
            → (Seen seen (suc i)
                → Unrepeated (suc i)
                → Outcome (scan key min_run seen (suc i) left) (suc i + left))
            → ((j : Text)
                → Seen ((j, i) ∷ seen) (suc i)
                → Unrepeated (suc i)
                → Outcome (scan key min_run ((j, i) ∷ seen) (suc i) left) (suc i + left))
            → Goal (scan key min_run seen i (suc left))
        by_key none e old new =
            rw (e, scan)
              (rw (shift i left) at (
                old (Seen-old seen i s λ j ej. absurd (cc (sym e ∙ ej)))
                  (Unrepeated-suc i u λ a j ea ej d. absurd (cc (sym e ∙ ej)))))
        by_key (some k) e old new = by_seen k (first_seen k seen) e refl old (new k)

-- The scan reports a block exactly if two windows of as many lines, none of them blank, a comment or trivial, have the
-- same lines and do not overlap.
pub dup_scan_iff :
    (min_run : ℕ) (raw : List Text)
    → 0 < min_run
    → (dup_scan min_run raw ≡ false)
      ↔ Repeated
          (window_key min_run (map norm_line raw))
          min_run
          (length (map norm_line raw) + 1 - min_run)
unfolding dup_scan dup_at
dup_scan_iff min_run raw positive = by_result (scan key min_run [] 0 rounds) refl found
  where
    key : ℕ → Option Text
    key = window_key min_run (map norm_line raw)

    rounds : ℕ
    rounds = length (map norm_line raw) + 1 - min_run

    found : Outcome key min_run positive (scan key min_run [] 0 rounds) (0 + rounds)
    found =
        scan-Outcome key min_run positive [] 0 rounds (Seen-nil key min_run)
          λ a b k ea eb d l. absurd (omega arith)

    by_result :
        (o : Option (ℕ × ℕ))
        → scan key min_run [] 0 rounds ≡ o
        → Outcome key min_run positive o (0 + rounds)
        → ((elim o [ none ↦ true | some d ↦ false ]) ≡ false) ↔ Repeated key min_run rounds
    by_result none e u =
        (λ h. absurd (cc h), λ (a, b, k, ea, eb, d, l). absurd (u a b k ea eb d (omega arith)))
    by_result (some d) e (a, b, k, ea, eb, f, l) =
        (λ h. (a, b, k, ea, eb, f, omega arith), λ r. refl)
