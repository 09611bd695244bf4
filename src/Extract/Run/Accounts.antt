-- ===== src/Extract/Run/Accounts.antt =====
-- What a run does with every archive: it is marked, or it is left for the next run.
use dinomem.Prelude.{
  ◌≡◌, refl, Bool, true, false, Option, none, some, List, [], ◌∷◌, ◌++◌, arith, if◌then◌else◌,
}
use dinomem.Prelude.Text.{Text}
use dinomem.Extract.Summary.{
  Outcome, llm_failed, nothing, summary, Summary, Llm, process_single_archive,
}
use dinomem.Extract.Store.{Setting, Stored, write_memory_file}
use dinomem.Extract.Run.{
  process_batch_archives, is_in, Run, mark_archives_processed, after_write, store_summary,
  after_single, run_single, run_singles, store_result, store_results, mark_missing, mark_rest,
  result_names, after_batch, run_batch, run_batches,
}

-- A later state of a run: an end stays, and so does every mark.
pub record Later (r s : Run) : Type 0 where
  pub ends : r.crashed ≡ true → s.crashed ≡ true
  pub marks : (n : Text) → is_in n r.processed ≡ true → is_in n s.processed ≡ true

pub Later-refl : (r : Run) → Later r r
Later-refl r = record { ends = λ h. h; marks = λ n h. h }

pub Later-trans : {r s t : Run} → Later r s → Later s t → Later r t
Later-trans p q = record { ends = λ h. q.ends (p.ends h); marks = λ n h. q.marks n (p.marks n h) }

pub Later-if : (b : Bool) {r s t : Run} → Later r s → Later r t → Later r (if b then s else t)
Later-if true p q = p
Later-if false p q = q

pub is_in-append_right :
    (n : Text) (xs ys : List Text) → is_in n ys ≡ true → is_in n (xs ++ ys) ≡ true
is_in-append_right n [] ys h = h
is_in-append_right n (x ∷ xs) ys h = ground (arith, is_in-append_right n xs ys h)

pub is_in-append_left :
    (n : Text) (xs ys : List Text) → is_in n xs ≡ true → is_in n (xs ++ ys) ≡ true
is_in-append_left n [] ys h = absurd (cc)
is_in-append_left n (x ∷ xs) ys h = ground (arith, is_in-append_left n xs ys)

pub mark-Later : (names : List Text) (r : Run) → Later r (mark_archives_processed names r)
unfolding mark_archives_processed
mark-Later names r = record {
  ends = λ h. h;
  marks = λ n h. is_in-append_right n names r.processed h;
}

pub after_write-Later : (o : Stored) (r : Run) → Later r (after_write o r)
after_write-Later (none, d) r = record { ends = λ h. refl; marks = λ n h. h }
after_write-Later (some names, d) r = record { ends = λ h. h; marks = λ n h. h }

pub store_summary-Later : (st : Setting) (s : Summary) (r : Run) → Later r (store_summary st s r)
unfolding store_summary
store_summary-Later st s r = after_write-Later (write_memory_file st s [] r.memory) r

pub after_single-Later :
    (st : Setting) (name : Text) (o : Outcome) (r : Run) → Later r (after_single st name o r)
after_single-Later st name llm_failed r = record { ends = λ h. h; marks = λ n h. h }
after_single-Later st name nothing r =
    unfold mark_archives_processed in
    record { ends = λ h. h; marks = λ n h. is_in-append_right n (name ∷ []) r.processed h }
after_single-Later st name (summary s) r =
    Later-trans (mark-Later (name ∷ []) r)
      (store_summary-Later st s (mark_archives_processed (name ∷ []) r))

pub run_single-Later :
    (w : Llm) (st : Setting) (name : Text) (r : Run) → Later r (run_single w st name r)
unfolding run_single
run_single-Later w st name r =
    Later-if r.crashed (Later-refl r) (after_single-Later st name (process_single_archive w name) r)

pub run_singles-Later :
    (w : Llm) (st : Setting) (names : List Text) (r : Run) → Later r (run_singles w st names r)
unfolding run_singles
run_singles-Later w st [] r = Later-refl r
run_singles-Later w st (name ∷ names) r =
    Later-trans (run_single-Later w st name r)
      (run_singles-Later w st names (run_single w st name r))

pub store_results-Later :
    (st : Setting) (results : List (Text × Option Summary)) (r : Run)
    → Later r (store_results st results r)
unfolding store_results
store_results-Later st [] r = Later-refl r
store_results-Later st ((name, o) ∷ results) r =
    Later-trans (Later-if r.crashed (Later-refl r) (result o))
      (store_results-Later st results (if r.crashed then r else store_result st o r))
  where
    result : (o : Option Summary) → Later r (store_result st o r)
    result none = record { ends = λ h. h; marks = λ n h. h }
    result (some s) = store_summary-Later st s r

pub mark_missing-Later :
    (names : List Text) (name : Text) (r : Run) → Later r (mark_missing names name r)
mark_missing-Later names name r =
    unfold mark_archives_processed in
    Later-if (is_in name names) (Later-refl r)
      (record { ends = λ h. h; marks = λ n h. is_in-append_right n (name ∷ []) r.processed h })

pub mark_step-Later :
    (names : List Text) (name : Text) (r : Run)
    → Later r (if r.crashed then r else mark_missing names name r)
mark_step-Later names name r = Later-if r.crashed (Later-refl r) (mark_missing-Later names name r)

pub mark_rest-Later : (names batch : List Text) (r : Run) → Later r (mark_rest names batch r)
unfolding mark_rest
mark_rest-Later names [] r = Later-refl r
mark_rest-Later names (name ∷ batch) r =
    Later-trans (mark_step-Later names name r)
      (mark_rest-Later names batch (if r.crashed then r else mark_missing names name r))

pub after_batch-Later :
    (w : Llm) (st : Setting) (batch : List Text) (results : List (Text × Option Summary)) (r : Run)
    → Later r (after_batch w st batch results r)
after_batch-Later w st batch [] r = run_singles-Later w st batch r
after_batch-Later w st batch (x ∷ results) r =
    let names = result_names (x ∷ results) in
    let marked = mark_archives_processed names r in
    Later-trans (mark-Later names r) (
      Later-trans (store_results-Later st (x ∷ results) marked)
        (mark_rest-Later names batch (store_results st (x ∷ results) marked)))

pub run_batch-Later :
    (w : Llm) (st : Setting) (batch : List Text) (r : Run) → Later r (run_batch w st batch r)
unfolding run_batch
run_batch-Later w st [] r = Later-refl r
run_batch-Later w st (name ∷ []) r = run_single-Later w st name r
run_batch-Later w st (name ∷ other ∷ names) r = Later-if r.crashed (Later-refl r) (
    after_batch-Later w st (name ∷ other ∷ names) (process_batch_archives w (name ∷ other ∷ names))
      r)

pub run_batches-Later :
    (w : Llm) (st : Setting) (bs : List (List Text)) (r : Run) → Later r (run_batches w st bs r)
unfolding run_batches
run_batches-Later w st [] r = Later-refl r
run_batches-Later w st (batch ∷ bs) r =
    Later-trans (run_batch-Later w st batch r) (run_batches-Later w st bs (run_batch w st batch r))
