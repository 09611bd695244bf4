-- ===== src/Extract/Run.antt =====
-- A run over the archives: `process_batch_archives`, the log of the processed archives and `main` of
-- procedures/extract_memory.py. The log is read and written without an error. A NameError on the way ends
-- the run; what was written before it stays. The status that is written after each batch, the nudge about
-- the owners and the log of git are not modelled.
pub mod Accounts
pub mod Earned
pub mod Settled
use dinomem.Prelude.{
  ℕ, suc, ◌+◌, ◌-◌, Bool, true, false, not, ◌&&◌, ◌||◌, Option, none, some, List, [], ◌∷◌, ◌++◌,
  map, ltb, leb, ◌==◌, if◌then◌else◌, length, any, filter,
}
use dinomem.Prelude.Text.{Text, codes, text_eq, join}
use dinomem.Prelude.Text.Lines.{join_all}
use dinomem.Retention.Run.{Directory}
use dinomem.Extract.Archive.{extract_single_archive_content}
use dinomem.Extract.Summary.{
  Fields, Summary, Reply, failed, reply, Outcome, llm_failed, nothing, summary, Llm, clean_response,
  has_content_batch, process_single_archive,
}
use dinomem.Extract.Store.{Setting, Stored, write_memory_file}

abbrev pub batch_max_chars : ℕ
batch_max_chars = 80000

-- `taken`: the leading chunks that fit, the first one always; the flag is whether one is taken.
unfoldable pub take_chunks : Bool → ℕ → List Text → List Text
take_chunks some_taken total [] = []
take_chunks some_taken total (ch ∷ chunks) =
    let rest = take_chunks true (total + length ch) chunks in
    if some_taken && ltb batch_max_chars (total + length ch)
    then []
    else ch ∷ (if leb batch_max_chars (total + length ch) then [] else rest)

abbrev pub add_section : Text → List Text → ℕ → (ℕ → List (Text × Text)) → List (Text × Text)
add_section name [] total rest = rest total
add_section name (ch ∷ chunks) total rest =
    if leb batch_max_chars total
    then []
    else (name, join_all (take_chunks false total (ch ∷ chunks)))
      ∷ rest (total + length (join_all (take_chunks false total (ch ∷ chunks))))

-- The archives that are put in front of the model, with their contents.
unfoldable pub batch_sections : Llm → ℕ → List Text → List (Text × Text)
batch_sections w total [] = []
batch_sections w total (name ∷ names) =
    add_section name (extract_single_archive_content w.upper (w.read_archive name)) total
      λ t. batch_sections w t names

abbrev section_text : Text × Text → Text
section_text (name, content) =
    codes "=== ARCHIVE: "
    ++ (name ++ (codes " ===\n" ++ (content ++ (codes "\n=== END: " ++ (name ++ codes " ===\n")))))

-- `(summary['archive'], summary if has_content else None)`
abbrev of_result : Llm → Text × Fields → Text × Option Summary
of_result w (name, f) = (
  name,
  if has_content_batch f
      then some (record { date = w.today; source_id = w.source_id name; fields = f })
      else none,
)

abbrev of_results : Llm → Option (List (Text × Fields)) → List (Text × Option Summary)
of_results w none = []
of_results w (some results) = map (of_result w) results

abbrev of_batch_reply : Llm → Reply → List (Text × Option Summary)
of_batch_reply w failed = []
of_batch_reply w (reply r) = of_results w (w.parse_batch (clean_response r))

abbrev ask_sections : Llm → List (Text × Text) → List (Text × Option Summary)
ask_sections w [] = []
ask_sections w (x ∷ xs) =
    of_batch_reply w
      (w.ask_batch (map (λ y. y.0) (x ∷ xs)) (join (codes "\n") (map section_text (x ∷ xs))))

-- `process_batch_archives`
unfoldable pub process_batch_archives : Llm → List Text → List (Text × Option Summary)
process_batch_archives w names = if w.enabled then ask_sections w (batch_sections w 0 names) else []

abbrev pub is_in : Text → List Text → Bool
is_in name names = any (text_eq name) names

-- The processed archives, the memory and the counts of a run, and whether a NameError ended it.
pub record Run : Type 0 where
  pub processed : List Text
  pub memory : Directory
  pub stored_count : ℕ
  pub empty_count : ℕ
  pub failed_count : ℕ
  pub crashed : Bool

-- `mark_archives_processed`: the set with more names
unfoldable pub mark_archives_processed : List Text → Run → Run
mark_archives_processed names r = record r { processed = names ++ r.processed }

abbrev pub after_write : Stored → Run → Run
after_write (none, dir) r = record r { memory = dir; crashed = true }
after_write (some names, dir) r = record r { memory = dir; stored_count = suc r.stored_count }

unfoldable pub store_summary : Setting → Summary → Run → Run
store_summary st s r = after_write (write_memory_file st s [] r.memory) r

abbrev pub after_single : Setting → Text → Outcome → Run → Run
after_single st name llm_failed r = record r { failed_count = suc r.failed_count }
after_single st name nothing r =
    let marked = mark_archives_processed (name ∷ []) r in
    record marked { empty_count = suc marked.empty_count }
after_single st name (summary s) r = store_summary st s (mark_archives_processed (name ∷ []) r)

-- One archive by itself, unless the run has ended.
unfoldable pub run_single : Llm → Setting → Text → Run → Run
run_single w st name r =
    if r.crashed then r else after_single st name (process_single_archive w name) r

unfoldable pub run_singles : Llm → Setting → List Text → Run → Run
run_singles w st [] r = r
run_singles w st (name ∷ names) r = run_singles w st names (run_single w st name r)

abbrev pub store_result : Setting → Option Summary → Run → Run
store_result st none r = record r { empty_count = suc r.empty_count }
store_result st (some s) r = store_summary st s r

-- The results of a batch that the model answered.
unfoldable pub store_results : Setting → List (Text × Option Summary) → Run → Run
store_results st [] r = r
store_results st ((name, s) ∷ results) r =
    store_results st results (if r.crashed then r else store_result st s r)

abbrev pub mark_missing : List Text → Text → Run → Run
mark_missing names name r =
    if is_in name names
    then r
    else record (mark_archives_processed (name ∷ []) r) { empty_count = suc r.empty_count }

-- The archives of the batch that the answer does not name.
unfoldable pub mark_rest : List Text → List Text → Run → Run
mark_rest names [] r = r
mark_rest names (name ∷ batch) r =
    mark_rest names batch (if r.crashed then r else mark_missing names name r)

abbrev pub result_names : List (Text × Option Summary) → List Text
result_names results = map (λ x. x.0) results

abbrev pub after_batch : Llm → Setting → List Text → List (Text × Option Summary) → Run → Run
after_batch w st batch [] r = run_singles w st batch r
after_batch w st batch (x ∷ results) r =
    let names = result_names (x ∷ results) in
    mark_rest names batch (store_results st (x ∷ results) (mark_archives_processed names r))

-- one round of the loop over the batches
unfoldable pub run_batch : Llm → Setting → List Text → Run → Run
run_batch w st [] r = r
run_batch w st (name ∷ []) r = run_single w st name r
run_batch w st (name ∷ other ∷ names) r =
    if r.crashed
    then r
    else after_batch w st (name ∷ other ∷ names) (process_batch_archives w (name ∷ other ∷ names)) r

-- `new_archives[i:i + BATCH_SIZE]`
unfoldable pub batches : List Text → List (List Text)
batches [] = []
batches (a ∷ []) = (a ∷ []) ∷ []
batches (a ∷ b ∷ []) = (a ∷ b ∷ []) ∷ []
batches (a ∷ b ∷ c ∷ names) = (a ∷ b ∷ c ∷ []) ∷ batches names

unfoldable pub run_batches : Llm → Setting → List (List Text) → Run → Run
run_batches w st [] r = r
run_batches w st (batch ∷ rest) r = run_batches w st rest (run_batch w st batch r)

-- `filter_new_archives`
unfoldable pub filter_new_archives : List Text → List Text → List Text
filter_new_archives processed all = filter (λ name. not (is_in name processed)) all

abbrev pub start : List Text → Directory → Run
start processed memory = record {
  processed = processed;
  memory = memory;
  stored_count = 0;
  empty_count = 0;
  failed_count = 0;
  crashed = false;
}

-- `main` up to the summary, on the listed archives
unfoldable pub extract : Llm → Setting → List Text → List Text → Directory → Run
extract w st all processed memory =
    if w.enabled
    then run_batches w st (batches (filter_new_archives processed all)) (start processed memory)
    else start processed memory

-- The last status: whether all is well, and how many archives are left.
unfoldable pub final_status : List Text → List Text → Run → Bool × ℕ
final_status all processed r =
    let new = length (filter_new_archives processed all) in
    let processed_now = new - r.failed_count in
    let skipped = length all - new in
    (not (ltb 0 r.failed_count && processed_now == 0), length all - skipped - processed_now)
