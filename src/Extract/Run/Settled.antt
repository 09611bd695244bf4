-- ===== src/Extract/Run/Settled.antt =====
-- How a run of the extraction settles the archives that it lists.
use mathlib.Core.Path.{subst}
use dinomem.Prelude.{
  suc, ◌≡◌, refl, sym, inl, inr, Bool, true, false, not, ◌||◌, Option, List, [], ◌∷◌, arith,
  Bool-cases, All, All-map, filter, any, if◌then◌else◌,
}
use dinomem.Prelude.Text.{Text, text_eq_refl}
use dinomem.Retention.Run.{Directory}
use dinomem.Extract.Summary.{
  Outcome, llm_failed, nothing, summary, Summary, Llm, process_single_archive,
}
use dinomem.Extract.Store.{Setting}
use dinomem.Extract.Run.{
  process_batch_archives, is_in, Run, mark_archives_processed, store_summary, after_single,
  run_single, run_singles, store_results, mark_missing, mark_rest, result_names, after_batch,
  run_batch, batches, run_batches, filter_new_archives, start, extract,
}
use dinomem.Extract.Run.Earned.{is_failure, earned_in, run_batches-Only}
use dinomem.Extract.Run.Accounts.{
  Later, is_in-append_left, store_summary-Later, run_singles-Later, store_results-Later,
  mark_rest-Later, mark_step-Later, run_batches-Later,
}

-- The run has ended, or the archive is marked.
abbrev pub IsMarked : Run → Text → Type 0
IsMarked r n = (r.crashed || is_in n r.processed) ≡ true

-- or the model failed on it
abbrev pub Settled : Llm → Run → Text → Type 0
Settled w r n = (r.crashed || is_in n r.processed || is_failure (process_single_archive w n)) ≡ true

Settled-Later : (w : Llm) (n : Text) {r s : Run} → Later r s → Settled w r n → Settled w s n
Settled-Later w n {r} {s} l h = elim (Bool-cases r.crashed) [
  | inl e ↦ rw (l.ends e) refl
  | inr e ↦ elim (Bool-cases (is_in n r.processed)) [
    | inl p ↦ ground (arith, l.marks n p)
    | inr p ↦ ground (arith)
  ]
]

IsMarked-Later : (n : Text) {r s : Run} → Later r s → IsMarked r n → IsMarked s n
IsMarked-Later n {r} {s} l h = elim (Bool-cases r.crashed) [
  | inl e ↦ rw (l.ends e) refl
  | inr e ↦ ground (arith, l.marks n (ground arith))
]

marked_self : (n : Text) (names : List Text) → is_in n (n ∷ names) ≡ true
marked_self n names = rw (text_eq_refl n)

after_single-Settled :
    (w : Llm) (st : Setting) (n : Text) (r : Run)
    → Settled w (after_single st n (process_single_archive w n) r) n
after_single-Settled w st n r = by_outcome (process_single_archive w n) refl
  where
    marked : IsMarked (mark_archives_processed (n ∷ []) r) n
    marked = unfold mark_archives_processed in ground (arith, marked_self n r.processed)

    stays : (s : Run) → IsMarked s n → Settled w s n
    stays s h = rw h refl

    by_outcome :
        (o : Outcome) → process_single_archive w n ≡ o → Settled w (after_single st n o r) n
    by_outcome llm_failed e = rw e (or_true _)
      where
        or_true : (b : Bool) → (b || true) ≡ true
        or_true true = refl
        or_true false = refl
    by_outcome nothing e =
        unfold mark_archives_processed in ground (arith, marked_self n r.processed)
    by_outcome (summary s) e =
        stays (store_summary st s (mark_archives_processed (n ∷ []) r))
          (IsMarked-Later n (store_summary-Later st s (mark_archives_processed (n ∷ []) r)) marked)

run_single-Settled :
    (w : Llm) (st : Setting) (n : Text) (r : Run) → Settled w (run_single w st n r) n
unfolding run_single
run_single-Settled w st n r = by_flag r.crashed refl
  where
    by_flag :
        (b : Bool)
        → r.crashed ≡ b
        → Settled w (if b then r else after_single st n (process_single_archive w n) r) n
    by_flag true e = rw e refl
    by_flag false e = after_single-Settled w st n r

run_singles-Settled :
    (w : Llm) (st : Setting) (names : List Text) (r : Run)
    → All (Settled w (run_singles w st names r)) names
unfolding run_singles
run_singles-Settled w st [] r = tt
run_singles-Settled w st (n ∷ names) r = (
  Settled-Later w n (run_singles-Later w st names (run_single w st n r))
      (run_single-Settled w st n r),
  run_singles-Settled w st names (run_single w st n r),
)

mark_step-IsMarked :
    (names : List Text) (n : Text) (r : Run)
    → ((m : Text) → is_in m names ≡ true → is_in m r.processed ≡ true)
    → IsMarked (if r.crashed then r else mark_missing names n r) n
mark_step-IsMarked names n r known = by_flag r.crashed refl
  where
    missing :
        (b : Bool)
        → is_in n names ≡ b
        → IsMarked
            (if b
              then r
              else record (mark_archives_processed (n ∷ []) r) { empty_count = suc r.empty_count })
            n
    missing true e = ground (arith, known n e)
    missing false e = unfold mark_archives_processed in ground (arith, marked_self n r.processed)

    by_flag : (b : Bool) → r.crashed ≡ b → IsMarked (if b then r else mark_missing names n r) n
    by_flag true e = rw e refl
    by_flag false e = missing (is_in n names) refl

mark_rest-IsMarked :
    (names batch : List Text) (r : Run)
    → ((m : Text) → is_in m names ≡ true → is_in m r.processed ≡ true)
    → All (IsMarked (mark_rest names batch r)) batch
unfolding mark_rest
mark_rest-IsMarked names [] r known = tt
mark_rest-IsMarked names (n ∷ batch) r known =
    let next = if r.crashed then r else mark_missing names n r in
    (
      IsMarked-Later n (mark_rest-Later names batch next) (mark_step-IsMarked names n r known),
      mark_rest-IsMarked names batch next λ m h. (mark_step-Later names n r).marks m (known m h),
    )

-- Every archive of a batch that the model answered is marked, also one that the answer leaves out or that was
-- not put in front of the model, unless a NameError ended the run.
pub after_batch-IsMarked :
    (w : Llm) (st : Setting) (batch : List Text) (x : Text × Option Summary)
    (results : List (Text × Option Summary)) (r : Run)
    → All (IsMarked (after_batch w st batch (x ∷ results) r)) batch
after_batch-IsMarked w st batch x results r =
    let names = result_names (x ∷ results) in
    let marked = mark_archives_processed names r in
    mark_rest-IsMarked names batch (store_results st (x ∷ results) marked)
      λ m h. (store_results-Later st (x ∷ results) marked).marks m (in_marked m names h)
  where
    in_marked :
        (m : Text) (names : List Text)
        → is_in m names ≡ true
        → is_in m (mark_archives_processed names r).processed ≡ true
    in_marked m names h = unfold mark_archives_processed in is_in-append_left m names r.processed h

Settled-of-IsMarked : (w : Llm) (r : Run) (n : Text) → IsMarked r n → Settled w r n
Settled-of-IsMarked w r n h = rw h refl

after_batch-Settled :
    (w : Llm) (st : Setting) (batch : List Text) (results : List (Text × Option Summary)) (r : Run)
    → All (Settled w (after_batch w st batch results r)) batch
after_batch-Settled w st batch [] r = run_singles-Settled w st batch r
after_batch-Settled w st batch (x ∷ results) r =
    All-map (Settled-of-IsMarked w (after_batch w st batch (x ∷ results) r)) batch
      (after_batch-IsMarked w st batch x results r)

ended-Settled : (w : Llm) (r : Run) (names : List Text) → r.crashed ≡ true → All (Settled w r) names
ended-Settled w r [] e = tt
ended-Settled w r (n ∷ names) e = (rw e refl, ended-Settled w r names e)

run_batch-Settled :
    (w : Llm) (st : Setting) (batch : List Text) (r : Run)
    → All (Settled w (run_batch w st batch r)) batch
unfolding run_batch
run_batch-Settled w st [] r = tt
run_batch-Settled w st (n ∷ []) r = (run_single-Settled w st n r, tt)
run_batch-Settled w st (n ∷ other ∷ names) r = by_flag r.crashed refl
  where
    batch : List Text
    batch = n ∷ other ∷ names

    by_flag :
        (b : Bool)
        → r.crashed ≡ b
        → All
            (Settled w (if b then r else after_batch w st batch (process_batch_archives w batch) r))
            batch
    by_flag true e = ended-Settled w r batch e
    by_flag false e = after_batch-Settled w st batch (process_batch_archives w batch) r

run_batches-Settled :
    (w : Llm) (st : Setting) (bs : List (List Text)) (r : Run)
    → All (All (Settled w (run_batches w st bs r))) bs
unfolding run_batches
run_batches-Settled w st [] r = tt
run_batches-Settled w st (batch ∷ bs) r =
    let next = run_batch w st batch r in
    (
      All-map (λ n h. Settled-Later w n (run_batches-Later w st bs next) h) batch
          (run_batch-Settled w st batch r),
      run_batches-Settled w st bs next,
    )

batches-All : (P : Text → Type 0) (names : List Text) → All (All P) (batches names) → All P names
unfolding batches
batches-All P [] h = tt
batches-All P (a ∷ []) h = h.0
batches-All P (a ∷ b ∷ []) h = h.0
batches-All P (a ∷ b ∷ c ∷ names) (h, k) = (h.0, (h.1.0, (h.1.1.0, batches-All P names k)))

filter_new-All :
    (P : Text → Type 0) (processed all : List Text)
    → ((n : Text) → is_in n processed ≡ true → P n)
    → All P (filter_new_archives processed all)
    → All P all
unfolding filter_new_archives
filter_new-All P processed [] old h = tt
filter_new-All P processed (n ∷ all) old h =
    by_flag (is_in n processed) refl (filter_new-All P processed all old)
  where
    by_flag :
        (b : Bool)
        → is_in n processed ≡ b
        → (All P (filter (λ m. not (is_in m processed)) all) → All P all)
        → P n × All P all
    by_flag true e rest = (old n e, rest (rw e at h))
    by_flag false e rest = ((rw e at h).0, rest (rw e at h).1)

-- What marks an archive: an earlier run, or one of the batches of this run.
abbrev pub earned : Llm → List Text → List Text → Text → Bool
earned w all processed n =
    is_in n processed || any (earned_in w n) (batches (filter_new_archives processed all))

-- After a run every listed archive is marked as processed, or the model failed on it, or a NameError ended the run;
-- no mark of an earlier run is lost; and an archive is marked only by an earlier run, or because it stands in a
-- batch and the model did not fail on it, or because the model answered for its batch, or named it in such an answer.
pub extract-Settled :
    (w : Llm) (st : Setting) (all processed : List Text) (memory : Directory)
    → w.enabled ≡ true
    → All (Settled w (extract w st all processed memory)) all
      × ((n : Text)
          → is_in n processed ≡ true
          → is_in n (extract w st all processed memory).processed ≡ true)
      × ((n : Text)
          → is_in n (extract w st all processed memory).processed ≡ true
          → earned w all processed n ≡ true)
extract-Settled w st all processed memory e =
    subst
      (λ r.
        All (Settled w r) all
        × ((n : Text) → is_in n processed ≡ true → is_in n r.processed ≡ true)
        × ((n : Text) → is_in n r.processed ≡ true → earned w all processed n ≡ true))
      (sym same)
      (
        filter_new-All (Settled w end) processed all
            (λ n h. rw (keeps.marks n h) (or_true end.crashed _))
            (batches-All (Settled w end) (filter_new_archives processed all) (
              run_batches-Settled w st (batches (filter_new_archives processed all))
                (start processed memory))),
        keeps.marks,
        run_batches-Only (earned w all processed) w st (batches (filter_new_archives processed all))
            (start processed memory) (λ n h. or_right (is_in n processed) _ h) (λ n h. rw h refl),
      )
  where
    end : Run
    end = run_batches w st (batches (filter_new_archives processed all)) (start processed memory)

    keeps : Later (start processed memory) end
    keeps =
        run_batches-Later w st (batches (filter_new_archives processed all))
          (start processed memory)

    or_right : (a b : Bool) → b ≡ true → a || b ≡ true
    or_right true b h = refl
    or_right false b h = h

    or_true : (a b : Bool) → (a || true || b) ≡ true
    or_true true b = refl
    or_true false b = refl

    if_true : (b : Bool) (r s : Run) → b ≡ true → (if b then r else s) ≡ r
    if_true b r s h = rw h

    same : extract w st all processed memory ≡ end
    same = unfold extract in if_true w.enabled end (start processed memory) e
