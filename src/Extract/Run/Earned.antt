-- ===== src/Extract/Run/Earned.antt =====
-- Which archives a run marks as processed.
use dinomem.Prelude.{
  suc, ◌≡◌, refl, sym, ap, ◌∙◌, inl, inr, Bool, true, false, not, ◌&&◌, ◌||◌, Option, none, some,
  List, [], ◌∷◌, ◌++◌, any, arith, Bool-cases, if◌then◌else◌,
}
use dinomem.Prelude.Text.{Text, text_eq, text_eq_iff, text_eq_refl}
use dinomem.Extract.Summary.{
  Outcome, llm_failed, nothing, summary, Summary, Llm, process_single_archive,
}
use dinomem.Extract.Store.{Setting, Stored, write_memory_file}
use dinomem.Extract.Run.{
  process_batch_archives, is_in, Run, mark_archives_processed, store_summary, after_write,
  after_single, run_single, run_singles, store_results, store_result, mark_rest, result_names,
  after_batch, run_batch, run_batches,
}

abbrev pub is_failure : Outcome → Bool
is_failure llm_failed = true
is_failure nothing = false
is_failure (summary s) = false

abbrev is_nonempty : List (Text × Option Summary) → Bool
is_nonempty [] = false
is_nonempty (x ∷ xs) = true

-- The model answered for the batch as a whole, which only batches of two or more are put to it as.
abbrev pub is_answered : Llm → List Text → Bool
is_answered w [] = false
is_answered w (a ∷ []) = false
is_answered w (a ∷ b ∷ names) = is_nonempty (process_batch_archives w (a ∷ b ∷ names))

-- The archive stands in the batch and the model did not fail on it, or the batch was answered and the archive stands
-- in it or in the answer.
abbrev pub earned_in : Llm → Text → List Text → Bool
earned_in w n batch =
    is_in n batch && not (is_failure (process_single_archive w n))
    || is_answered w batch
      && (is_in n batch || is_in n (result_names (process_batch_archives w batch)))

-- Whatever is marked passes the test.
abbrev Only : (Text → Bool) → Run → Type 0
Only p r = (n : Text) → is_in n r.processed ≡ true → p n ≡ true

is_in-append : (n : Text) (a b : List Text) → is_in n (a ++ b) ≡ is_in n a || is_in n b
is_in-append n [] b = refl
is_in-append n (x ∷ a) b = ap (λ r. text_eq n x || r) (is_in-append n a b) ∙ or_assoc (text_eq n x)
  where
    or_assoc : (c : Bool) → c || (is_in n a || is_in n b) ≡ (c || is_in n a) || is_in n b
    or_assoc true = refl
    or_assoc false = refl

store_summary-processed :
    (st : Setting) (s : Summary) (r : Run) → (store_summary st s r).processed ≡ r.processed
unfolding store_summary
store_summary-processed st s r = by_stored (write_memory_file st s [] r.memory)
  where
    by_stored : (o : Stored) → (after_write o r).processed ≡ r.processed
    by_stored (none, dir) = refl
    by_stored (some names, dir) = refl

module _ (p : Text → Bool) where
  Only-mark :
      (names : List Text) (r : Run)
      → ((n : Text) → is_in n names ≡ true → p n ≡ true)
      → Only p r
      → Only p (mark_archives_processed names r)
  unfolding mark_archives_processed
  Only-mark names r new old n h = elim (Bool-cases (is_in n names)) [
    | inl e ↦ new n e
    | inr k ↦
        old n (
          sym (ap (λ b. b || is_in n r.processed) k) ∙ (sym (is_in-append n names r.processed) ∙ h))
  ]

  -- one name
  only_name : (m : Text) → p m ≡ true → (n : Text) → is_in n (m ∷ []) ≡ true → p n ≡ true
  only_name m h n e = ap p ((text_eq_iff n m).0 (ground (arith))) ∙ h

  Only-store : (st : Setting) (s : Summary) (r : Run) → Only p r → Only p (store_summary st s r)
  Only-store st s r h n e = h n (sym (ap (is_in n) (store_summary-processed st s r)) ∙ e)

  Only-single :
      (w : Llm) (st : Setting) (m : Text) (r : Run)
      → (is_failure (process_single_archive w m) ≡ false → p m ≡ true)
      → Only p r
      → Only p (run_single w st m r)
  unfolding run_single
  Only-single w st m r new old = by_flag r.crashed
    where
      by_outcome :
          (o : Outcome) → (is_failure o ≡ false → p m ≡ true) → Only p (after_single st m o r)
      by_outcome llm_failed h = old
      by_outcome nothing h = Only-mark (m ∷ []) r (only_name m (h refl)) old
      by_outcome (summary s) h =
          Only-store st s (mark_archives_processed (m ∷ []) r)
            (Only-mark (m ∷ []) r (only_name m (h refl)) old)

      by_flag :
          (b : Bool) → Only p (if b then r else after_single st m (process_single_archive w m) r)
      by_flag true = old
      by_flag false = by_outcome (process_single_archive w m) new

  Only-singles :
      (w : Llm) (st : Setting) (names : List Text) (r : Run)
      → ((m : Text)
          → is_in m names ≡ true
          → is_failure (process_single_archive w m) ≡ false
          → p m ≡ true)
      → Only p r
      → Only p (run_singles w st names r)
  unfolding run_singles
  Only-singles w st [] r new old = old
  Only-singles w st (m ∷ names) r new old =
      Only-singles w st names (run_single w st m r)
        (λ k h. new k (or_true (text_eq k m) (is_in k names) h))
        (Only-single w st m r (new m (rw (text_eq_refl m) refl)) old)
    where
      or_true : (a b : Bool) → b ≡ true → a || b ≡ true
      or_true true b h = refl
      or_true false b h = h

  Only-results :
      (st : Setting) (results : List (Text × Option Summary)) (r : Run)
      → Only p r
      → Only p (store_results st results r)
  unfolding store_results
  Only-results st [] r old = old
  Only-results st ((name, s) ∷ results) r old = Only-results st results _ (by_flag r.crashed s)
    where
      by_flag : (b : Bool) (s : Option Summary) → Only p (if b then r else store_result st s r)
      by_flag true s = old
      by_flag false none = old
      by_flag false (some s) = Only-store st s r old

  Only-rest :
      (names batch : List Text) (r : Run)
      → ((m : Text) → is_in m batch ≡ true → p m ≡ true)
      → Only p r
      → Only p (mark_rest names batch r)
  unfolding mark_rest
  Only-rest names [] r new old = old
  Only-rest names (m ∷ batch) r new old =
      Only-rest names batch _ (λ k h. new k (or_true (text_eq k m) (is_in k batch) h))
        (by_flags r.crashed (is_in m names))
    where
      or_true : (a b : Bool) → b ≡ true → a || b ≡ true
      or_true true b h = refl
      or_true false b h = h

      by_flags :
          (a b : Bool)
          → Only p (
              if a
              then r
              else if b
              then r
              else record (mark_archives_processed (m ∷ []) r) { empty_count = suc r.empty_count })
      by_flags true b = old
      by_flags false true = old
      by_flags false false =
          Only-mark (m ∷ []) r (only_name m (new m (rw (text_eq_refl m) refl))) old

  Only-batch :
      (w : Llm) (st : Setting) (batch : List Text) (r : Run)
      → ((n : Text) → earned_in w n batch ≡ true → p n ≡ true)
      → Only p r
      → Only p (run_batch w st batch r)
  unfolding run_batch
  Only-batch w st [] r new old = old
  Only-batch w st (m ∷ []) r new old =
      Only-single w st m r (λ h. new m (rw (h, text_eq_refl m) refl)) old
  Only-batch w st (m ∷ k ∷ names) r new old =
      by_flag r.crashed (process_batch_archives w (m ∷ k ∷ names)) new
    where
      batch : List Text
      batch = m ∷ k ∷ names

      by_flag :
          (b : Bool) (results : List (Text × Option Summary))
          → ((n : Text)
              → (is_in n batch && not (is_failure (process_single_archive w n))
                  || is_nonempty results && (is_in n batch || is_in n (result_names results)))
                ≡ true
              → p n ≡ true)
          → Only p (if b then r else after_batch w st batch results r)
      by_flag true results h = old
      by_flag false [] h = Only-singles w st batch r (λ n i f. h n (rw (i, f) refl)) old
      by_flag false (x ∷ results) h =
          Only-rest (result_names (x ∷ results)) batch
            (store_results st (x ∷ results)
              (mark_archives_processed (result_names (x ∷ results)) r))
            (λ n i. h n (ground (arith, i)))
            (Only-results st (x ∷ results) (mark_archives_processed (result_names (x ∷ results)) r)
              (Only-mark (result_names (x ∷ results)) r (λ n i. h n (ground (arith, i))) old))

  pub run_batches-Only :
      (w : Llm) (st : Setting) (bs : List (List Text)) (r : Run)
      → ((n : Text) → any (earned_in w n) bs ≡ true → p n ≡ true)
      → ((n : Text) → is_in n r.processed ≡ true → p n ≡ true)
      → (n : Text) → is_in n (run_batches w st bs r).processed ≡ true
      → p n ≡ true
  unfolding run_batches
  run_batches-Only w st [] r new old = old
  run_batches-Only w st (batch ∷ bs) r new old =
      run_batches-Only w st bs (run_batch w st batch r)
        (λ n h. new n (or_right (earned_in w n batch) (any (earned_in w n) bs) h))
        (Only-batch w st batch r
          (λ n h. new n (or_left (earned_in w n batch) (any (earned_in w n) bs) h)) old)
    where
      or_right : (a b : Bool) → b ≡ true → a || b ≡ true
      or_right true b h = refl
      or_right false b h = h

      or_left : (a b : Bool) → a ≡ true → a || b ≡ true
      or_left true b h = refl
      or_left false b h = absurd (cc)
