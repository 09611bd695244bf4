-- ===== src/Improvement/Scan.antt =====
-- The scan of procedures/improvement_scan.py: `scan`, `_candidate_id`, `emit` and the watermark. Its
-- queue is the one of Improvement.Queue. What `parse_session` reads from an archive and the digest are
-- parameters; the excerpt and the counts of the skills are not modelled.
pub mod Watermark
use dinomem.Prelude.{
  ℕ, suc, ◌+◌, Bool, true, false, ◌&&◌, ◌||◌, Option, none, some, List, [], ◌∷◌, ◌++◌, leb, ltb,
  ◌==◌, any, max, if◌then◌else◌,
}
use dinomem.Prelude.Text.{Text, codes, text_eq, join}
use dinomem.Improvement.Signals.{
  Event, Signal, struggle, multistep, interrupt, Finding, findings_of, span_of,
}
use dinomem.Improvement.Queue.{QueueDir, Candidate, new}

-- What the scan calls.
pub record Scanner : Type 0 where
  pub parse_session : Text → List Event
  pub in_band : Text → Text → Bool
  pub digest : Text → Text

-- The archives by name; none is a file whose `stat` fails.
abbrev pub Archives : Type 0
Archives = List (Text × Option ℕ)

abbrev pub Fresh : Type 0
Fresh = List (ℕ × Text)

abbrev add_fresh : ℕ → Text → Option ℕ → Fresh → Fresh
add_fresh since name none rest = rest
add_fresh since name (some mtime) rest = if ltb since mtime then (mtime, name) ∷ rest else rest

unfoldable pub fresh_of : ℕ → Archives → Fresh
fresh_of since [] = []
fresh_of since ((name, mtime) ∷ archives) = add_fresh since name mtime (fresh_of since archives)

-- the order of names
unfoldable pub name_le : Text → Text → Bool
name_le [] t = true
name_le (x ∷ s) [] = false
name_le (x ∷ s) (y ∷ t) = ltb x y || x == y && name_le s t

-- `fresh.sort()`
unfoldable pub insert_fresh : ℕ × Text → Fresh → Fresh
insert_fresh x [] = x ∷ []
insert_fresh x (y ∷ l) =
    if ltb x.0 y.0 || x.0 == y.0 && name_le x.1 y.1 then x ∷ y ∷ l else y ∷ insert_fresh x l

unfoldable pub sort_fresh : Fresh → Fresh
sort_fresh [] = []
sort_fresh (x ∷ l) = insert_fresh x (sort_fresh l)

abbrev signal_name : Signal → Text
signal_name struggle = codes "struggle"
signal_name multistep = codes "multistep"
signal_name interrupt = codes "interrupt"

abbrev is_signal : Signal → Signal → Bool
is_signal struggle struggle = true
is_signal multistep multistep = true
is_signal interrupt interrupt = true
is_signal _ _ = false

abbrev named_if : Signal → List Finding → List Text
named_if s fs = if any (λ f. is_signal s f.signal) fs then signal_name s ∷ [] else []

-- `sorted(signals)`; a detector finds at most one signal, and each its own
unfoldable pub sorted_signals : List Finding → List Text
sorted_signals fs = named_if interrupt fs ++ (named_if multistep fs ++ named_if struggle fs)

-- `_candidate_id`
unfoldable pub candidate_id : Scanner → Text → List Finding → Text
candidate_id w name fs = w.digest (name ++ (codes ":" ++ join (codes "+") (sorted_signals fs)))

-- A candidate of the scan, with the span of its evidence.
pub record Detected : Type 0 where
  pub id : Text
  pub session_file : Text
  pub span : ℕ × ℕ

abbrev emit_if :
    Scanner → Text → List Finding → List Detected × ℕ → List Detected × ℕ → List Detected × ℕ
emit_if w name [] passed taken = passed
emit_if w name (f ∷ fs) passed (detected, newest) = (
  record { id = candidate_id w name (f ∷ fs); session_file = name; span = span_of f fs } ∷ detected,
  newest,
)

-- The loop of `scan` over the fresh archives, with the number of candidates so far and the newest time.
unfoldable pub scan_fresh : Scanner → ℕ → ℕ → ℕ → Fresh → List Detected × ℕ
scan_fresh w limit count newest [] = ([], newest)
scan_fresh w limit count newest ((mtime, name) ∷ fresh) =
    let passed = scan_fresh w limit count (max newest mtime) fresh in
    let taken = scan_fresh w limit (suc count) (max newest mtime) fresh in
    if leb limit count
    then passed
    else emit_if w name (findings_of w.in_band (w.parse_session name)) passed taken

-- `scan`: the candidates and the newest time
unfoldable pub scan : Scanner → ℕ → ℕ → Archives → List Detected × ℕ
scan w limit since archives = scan_fresh w limit 0 since (sort_fresh (fresh_of since archives))

abbrev pub queue_name : Text → Text
queue_name id = id ++ codes ".json"

abbrev pub queued : ℕ → Detected → Candidate
queued now d = record {
  id = d.id;
  status = new;
  detected_at = now;
  claimed_at = 0;
  dropped_reason = none;
}

unfoldable pub exists_in : Text → QueueDir → Bool
exists_in name [] = false
exists_in name ((n, c) ∷ queue) = text_eq n name || exists_in name queue

-- the place of a new file in the order of the names
unfoldable pub insert_file : Text → Candidate → QueueDir → QueueDir
insert_file name c [] = (name, some c) ∷ []
insert_file name c ((n, d) ∷ queue) =
    if name_le name n then (name, some c) ∷ (n, d) ∷ queue else (n, d) ∷ insert_file name c queue

-- the loop of `emit`: how many files it writes, and the queue
unfoldable pub emit_all : ℕ → List Detected → QueueDir → ℕ × QueueDir
emit_all now [] queue = (0, queue)
emit_all now (d ∷ detected) queue =
    if exists_in (queue_name d.id) queue
    then emit_all now detected queue
    else (let (n, after) =
          emit_all now detected (insert_file (queue_name d.id) (queued now d) queue) in
        (suc n, after))

-- What lasts from run to run.
pub record ScanState : Type 0 where
  pub queue : QueueDir
  pub watermark : ℕ

-- A run: `scan` from the watermark, and `emit`
unfoldable pub run_scan : Scanner → ℕ → ℕ → Archives → ScanState → ℕ × ScanState
run_scan w limit now archives st =
    let (detected, newest) = scan w limit st.watermark archives in
    let (n, after) = emit_all now detected st.queue in
    (n, record { queue = after; watermark = newest })
