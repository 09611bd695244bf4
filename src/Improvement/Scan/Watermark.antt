-- ===== src/Improvement/Scan/Watermark.antt =====
-- The watermark: how far a run moves it, and what that means for the archives behind the limit.
use dinomem.Prelude.{
  ℕ, suc, ◌+◌, ◌≤◌, ◌≡◌, refl, ap, sym, ◌∙◌, inl, inr, true, false, ◌&&◌, ◌||◌, none, some, List,
  [], ◌∷◌, leb, ltb, ◌==◌, max, length, All, arith, Bool-cases,
}
use dinomem.Prelude.Text.{Text, text_eq, text_eq_iff}
use dinomem.Improvement.Signals.{Finding, findings_of}
use dinomem.Improvement.Queue.{QueueDir, Candidate}
use dinomem.Improvement.Queue.Runs.{file_at}
use dinomem.Improvement.Scan.{
  Scanner, Archives, Fresh, fresh_of, name_le, insert_fresh, sort_fresh, Detected, emit_if,
  scan_fresh, scan, queue_name, exists_in, insert_file, queued, emit_all, ScanState, run_scan,
}

All-insert_fresh {ℓ} :
    (P : ℕ × Text → Type ℓ) (x : ℕ × Text) (l : Fresh) → All P (insert_fresh x l) → P x × All P l
unfolding insert_fresh
All-insert_fresh P x [] h = h
All-insert_fresh P x (y ∷ l) h = elim (Bool-cases (ltb x.0 y.0 || x.0 == y.0 && name_le x.1 y.1)) [
  | inl e ↦ rw e at h
  | inr n ↦
      let k : P y × All P (insert_fresh x l) = rw n at h in
      let (p, q) = All-insert_fresh P x l k.1 in (p, (k.0, q))
]

All-sort_fresh {ℓ} : (P : ℕ × Text → Type ℓ) (l : Fresh) → All P (sort_fresh l) → All P l
unfolding sort_fresh
All-sort_fresh P [] h = tt
All-sort_fresh P (x ∷ l) h =
    let (p, q) = All-insert_fresh P x (sort_fresh l) h in (p, All-sort_fresh P l q)

module _ (w : Scanner) (limit : ℕ) where
  -- the newest time, whatever the limit cuts off
  newest_of : (newest : ℕ) → Fresh → ℕ
  newest_of newest [] = newest
  newest_of newest ((mtime, name) ∷ fresh) = newest_of (max newest mtime) fresh

  scan_fresh-newest :
      (count newest : ℕ) (fresh : Fresh)
      → (scan_fresh w limit count newest fresh).1 ≡ newest_of newest fresh
  unfolding scan_fresh newest_of
  scan_fresh-newest count newest [] = refl
  scan_fresh-newest count newest ((mtime, name) ∷ fresh) = elim (Bool-cases (leb limit count)) [
    | inl e ↦ rw e (scan_fresh-newest count (max newest mtime) fresh)
    | inr n ↦ rw n (
        either (findings_of w.in_band (w.parse_session name)) _ _
          (scan_fresh-newest count (max newest mtime) fresh)
          (scan_fresh-newest (suc count) (max newest mtime) fresh))
  ]
    where
      either :
          (fs : List Finding) (a b : List Detected × ℕ)
          → a.1 ≡ newest_of (max newest mtime) fresh
          → b.1 ≡ newest_of (max newest mtime) fresh
          → (emit_if w name fs a b).1 ≡ newest_of (max newest mtime) fresh
      either [] a b h k = h
      either (f ∷ fs) a b h k = k

  newest_of-ge : (newest : ℕ) (fresh : Fresh) → newest ≤ newest_of newest fresh
  unfolding newest_of
  newest_of-ge newest [] = omega arith
  newest_of-ge newest ((mtime, name) ∷ fresh) = omega (arith, newest_of-ge (max newest mtime) fresh)

  newest_of-All : (newest : ℕ) (fresh : Fresh) → All (λ x. x.0 ≤ newest_of newest fresh) fresh
  unfolding newest_of
  newest_of-All newest [] = tt
  newest_of-All newest ((mtime, name) ∷ fresh) =
      (omega (arith, newest_of-ge (max newest mtime) fresh), newest_of-All (max newest mtime) fresh)

  nothing_fresh :
      (since newest : ℕ) (archives : Archives)
      → since ≤ newest
      → All (λ x. x.0 ≤ newest) (fresh_of since archives)
      → fresh_of newest archives ≡ []
  unfolding fresh_of
  nothing_fresh since newest [] h a = refl
  nothing_fresh since newest ((name, none) ∷ archives) h a = nothing_fresh since newest archives h a
  nothing_fresh since newest ((name, some mtime) ∷ archives) h a =
      elim (Bool-cases (ltb since mtime)) [
        | inl e ↦
            let k : (mtime ≤ newest) × All (λ x. x.0 ≤ newest) (fresh_of since archives) =
              rw e at a in
            rw (above k.0) (nothing_fresh since newest archives h k.1)
        | inr n ↦ rw (below n) (nothing_fresh since newest archives h (rw n at a))
      ]
    where
      above : mtime ≤ newest → ltb newest mtime ≡ false
      above k = ground arith

      below : ltb since mtime ≡ false → ltb newest mtime ≡ false
      below k = ground arith

  -- A second run over the same archives writes nothing and leaves the queue, also where the limit kept the
  -- first run from some of them: what is behind the limit is not looked at again.
  pub run_scan_twice :
      (now later : ℕ) (archives : Archives) (st : ScanState)
      → let after = (run_scan w limit now archives st).1 in
        ((run_scan w limit later archives after).0 ≡ 0)
        × ((run_scan w limit later archives after).1.queue ≡ after.queue)
        × ((run_scan w limit later archives after).1.watermark ≡ after.watermark)
  unfolding run_scan scan
  run_scan_twice now later archives st =
      let fresh = sort_fresh (fresh_of st.watermark archives) in
      let newest = (scan_fresh w limit 0 st.watermark fresh).1 in
      let e : newest ≡ newest_of st.watermark fresh = scan_fresh-newest 0 st.watermark fresh in
      let gone : fresh_of newest archives ≡ [] =
        nothing_fresh st.watermark newest archives (rw e (newest_of-ge st.watermark fresh)) (
          rw e (
            All-sort_fresh _ (fresh_of st.watermark archives)
              (newest_of-All st.watermark fresh))) in
      rw gone (unfold sort_fresh scan_fresh emit_all in (refl, refl, refl))

scan_fresh_bound :
    (w : Scanner) (limit count newest : ℕ) (fresh : Fresh)
    → count ≤ limit
    → count + length (scan_fresh w limit count newest fresh).0 ≤ limit
unfolding scan_fresh
scan_fresh_bound w limit count newest [] h = omega arith
scan_fresh_bound w limit count newest ((mtime, name) ∷ fresh) h =
    elim (Bool-cases (leb limit count)) [
      | inl e ↦ rw e (scan_fresh_bound w limit count (max newest mtime) fresh h)
      | inr n ↦ rw n (
          either (findings_of w.in_band (w.parse_session name)) _ _
            (scan_fresh_bound w limit count (max newest mtime) fresh h)
            (scan_fresh_bound w limit (suc count) (max newest mtime) fresh (ground arith)))
    ]
  where
    either :
        (fs : List Finding) (a b : List Detected × ℕ)
        → count + length a.0 ≤ limit
        → suc count + length b.0 ≤ limit
        → count + length (emit_if w name fs a b).0 ≤ limit
    either [] a b h k = h
    either (f ∷ fs) a b h k = omega arith

-- The scan finds at most as many candidates as its limit says.
pub scan_bound :
    (w : Scanner) (limit since : ℕ) (archives : Archives)
    → length (scan w limit since archives).0 ≤ limit
unfolding scan
scan_bound w limit since archives =
    omega
      (arith, scan_fresh_bound w limit 0 since (sort_fresh (fresh_of since archives)) (omega arith))

insert_file_ne :
    (k name : Text) (c : Candidate) (queue : QueueDir)
    → text_eq k name ≡ false
    → (file_at name (insert_file k c queue) ≡ file_at name queue)
      × (exists_in name (insert_file k c queue) ≡ exists_in name queue)
unfolding insert_file file_at exists_in
insert_file_ne k name c [] h = (rw h refl, rw h refl)
insert_file_ne k name c ((n, d) ∷ queue) h =
    let (p, q) = insert_file_ne k name c queue h in
    elim (Bool-cases (name_le k n)) [
      | inl e ↦ rw e (rw h refl, rw h refl)
      | inr m ↦ rw m (rw p refl, rw q refl)
    ]

other_name :
    (k name : Text) (queue : QueueDir)
    → exists_in name queue ≡ true
    → exists_in k queue ≡ false
    → text_eq k name ≡ false
other_name k name queue h n = elim (Bool-cases (text_eq k name)) [
  | inl e ↦ absurd (cc (clash ((text_eq_iff k name).0 e)))
  | inr d ↦ d
]
  where
    clash : k ≡ name → true ≡ false
    clash e = sym h ∙ (ap (λ x. exists_in x queue) (sym e) ∙ n)

-- What is in the queue under a name stays: the scan overwrites no candidate that is there.
pub emit_all-file_at :
    (now : ℕ) (detected : List Detected) (queue : QueueDir) (name : Text)
    → exists_in name queue ≡ true
    → file_at name (emit_all now detected queue).1 ≡ file_at name queue
unfolding emit_all
emit_all-file_at now [] queue name h = refl
emit_all-file_at now (d ∷ detected) queue name h =
    elim (Bool-cases (exists_in (queue_name d.id) queue)) [
      | inl e ↦ rw e (emit_all-file_at now detected queue name h)
      | inr n ↦ rw n (
          let (p, q) =
            insert_file_ne (queue_name d.id) name (queued now d) queue
              (other_name (queue_name d.id) name queue h n) in
          emit_all-file_at now detected (insert_file (queue_name d.id) (queued now d) queue) name
            (q ∙ h)
          ∙ p)
    ]
