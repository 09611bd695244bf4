-- ===== src/Extract/Summary.antt =====
-- What the model says about an archive: `process_single_archive`, `_process_archive_text`,
-- `process_batch_archives` and `_merge_summaries` of procedures/extract_memory.py. The model call on the
-- prompt, `json.loads` with the defaults of `get`, and `str.lower` are parameters.
pub mod Merged
use dinomem.Prelude.{
  ℕ, zero, suc, ◌+◌, Bool, true, false, not, ◌&&◌, ◌||◌, Option, none, some, List, [], ◌∷◌, ◌++◌,
  map, ltb, leb, if◌then◌else◌, length, any,
}
use dinomem.Prelude.Text.{Text, codes, text_eq, strip, strip_prefix, join}
use dinomem.Prelude.Text.Lines.{join_all}
use dinomem.Cleanup.Cluster.Partition.{concat}
use dinomem.Extract.Archive.{
  Turn, window_max_chars, is_blank_text, extract_single_archive_content, total_chars, is_nonempty,
  windows,
}

-- The fields of a summary that the model fills.
pub record Fields : Type 0 where
  pub context : Text
  pub insights : List Text
  pub source_scores : List Text
  pub decisions : List Text
  pub corrections : List Text
  pub operational : List Text
  pub user_preferences : List Text
  pub user_facts : List Text
  pub topics : List Text
  pub relations : List Text
  pub entities : List Text

pub record Summary : Type 0 where
  pub date : Text
  pub source_id : Option Text
  pub fields : Fields

pub data Reply : Type 0 where
  failed : Reply
  reply : Text → Reply

-- `"LLM_FAILED"`, `None` or a summary
pub data Outcome : Type 0 where
  llm_failed nothing : Outcome
  summary : Summary → Outcome

-- The model and what is read around it. `ask` has the archive, the number of the window and the text;
-- `parse_fields` and `parse_batch` are none when the reply is no JSON of that form.
pub record Llm : Type 0 where
  pub enabled : Bool
  pub ask : Text → ℕ → Text → Reply
  pub ask_batch : List Text → Text → Reply
  pub parse_fields : Text → Option Fields
  pub parse_batch : Text → Option (List (Text × Fields))
  pub read_archive : Text → List Turn
  pub source_id : Text → Option Text
  pub today : Text
  pub upper : Text → Text
  pub lower : Text → Text

abbrev pub fence : Text
fence = codes "```"

-- `if s.startswith(prefix): s = s[len(prefix):]`
unfoldable pub without_prefix : Text → Text → Text
without_prefix p s = elim (strip_prefix p s) [ none ↦ s | some rest ↦ rest ]

-- `if s.endswith("```"): s = s[:-3]`
unfoldable pub without_fence_end : Text → Text
without_fence_end [] = []
without_fence_end (c ∷ s) = if text_eq (c ∷ s) fence then [] else c ∷ without_fence_end s

unfoldable pub clean_response : Text → Text
clean_response r =
    strip (without_fence_end (without_prefix fence (without_prefix (codes "```json") (strip r))))

-- `has_content` of one archive
unfoldable pub has_content : Fields → Bool
has_content f =
    not (is_blank_text f.context)
    || is_nonempty f.insights
    || is_nonempty f.source_scores
    || is_nonempty f.decisions
    || is_nonempty f.corrections
    || is_nonempty f.operational
    || is_nonempty f.user_preferences
    || is_nonempty f.user_facts

-- `has_content` of an archive in a batch, which does not look at the source scores
unfoldable pub has_content_batch : Fields → Bool
has_content_batch f =
    not (is_blank_text f.context)
    || is_nonempty f.insights
    || is_nonempty f.decisions
    || is_nonempty f.corrections
    || is_nonempty f.operational
    || is_nonempty f.user_preferences
    || is_nonempty f.user_facts

abbrev of_fields : Llm → Text → Option Fields → Outcome
of_fields w archive none = nothing
of_fields w archive (some f) =
    if has_content f
    then summary (record { date = w.today; source_id = w.source_id archive; fields = f })
    else nothing

abbrev of_reply : Llm → Text → Reply → Outcome
of_reply w archive failed = llm_failed
of_reply w archive (reply r) = of_fields w archive (w.parse_fields (clean_response r))

-- `_process_archive_text`
unfoldable pub process_archive_text : Llm → Text → ℕ → Text → Outcome
process_archive_text w archive window content = of_reply w archive (w.ask archive window content)

-- the key under which an item is seen
unfoldable pub item_key : (Text → Text) → Text → Text
item_key lower item = lower (strip item)

-- The items whose key is neither empty nor seen before.
unfoldable pub unseen : (Text → Text) → List Text → List Text → List Text
unseen lower seen [] = []
unseen lower seen (item ∷ rest) =
    elim (text_eq (item_key lower item) [] || any (text_eq (item_key lower item)) seen) [
      | true ↦ unseen lower seen rest
      | false ↦ item ∷ unseen lower (item_key lower item ∷ seen) rest
    ]

abbrev pub over : (Fields → List Text) → List Fields → List Text
over field fs = concat (map field fs)

unfoldable pub first_context : List Fields → Text
first_context [] = []
first_context (f ∷ fs) = if is_blank_text f.context then first_context fs else f.context

-- `_merge_summaries` of a nonempty list, field by field
unfoldable pub merge_fields : (Text → Text) → List Fields → Fields
merge_fields lower fs = record {
  context = first_context fs;
  insights = unseen lower [] (over (λ f. f.insights) fs);
  source_scores = unseen lower [] (over (λ f. f.source_scores) fs);
  decisions = unseen lower [] (over (λ f. f.decisions) fs);
  corrections = unseen lower [] (over (λ f. f.corrections) fs);
  operational = unseen lower [] (over (λ f. f.operational) fs);
  user_preferences = unseen lower [] (over (λ f. f.user_preferences) fs);
  user_facts = unseen lower [] (over (λ f. f.user_facts) fs);
  topics = unseen lower [] (over (λ f. f.topics) fs);
  relations = unseen lower [] (over (λ f. f.relations) fs);
  entities = unseen lower [] (over (λ f. f.entities) fs);
}

-- The windows one after the other: none if the model failed on one.
unfoldable pub ask_windows : Llm → Text → ℕ → List (List Text) → Option (List Fields)
ask_windows w archive i [] = some []
ask_windows w archive i (win ∷ wins) = elim (process_archive_text w archive i (join_all win)) [
  | llm_failed ↦ none
  | nothing ↦ ask_windows w archive (suc i) wins
  | summary s ↦ elim (ask_windows w archive (suc i) wins) [
    | none ↦ none
    | some fs ↦ some (s.fields ∷ fs)
  ]
]

abbrev of_windows : Llm → Text → Option (List Fields) → Outcome
of_windows w archive none = llm_failed
of_windows w archive (some []) = nothing
of_windows w archive (some (f ∷ fs)) = of_fields w archive (some (merge_fields w.lower (f ∷ fs)))

-- `process_single_archive`
unfoldable pub process_single_archive : Llm → Text → Outcome
process_single_archive w archive =
    let chunks = extract_single_archive_content w.upper (w.read_archive archive) in
    if not w.enabled
    then nothing
    else if ltb window_max_chars (total_chars chunks)
    then of_windows w archive (ask_windows w archive 1 (windows chunks))
    else if is_blank_text (join_all chunks)
    then nothing
    else process_archive_text w archive 0 (join_all chunks)

-- What `extract_from_text` takes of the fields, and whether there is anything.
unfoldable pub note_fields : Fields → Fields
note_fields f = record f {
  source_scores = [];
  corrections = [];
  user_preferences = [];
  user_facts = [];
}

unfoldable pub has_note_content : Fields → Bool
has_note_content f =
    not (is_blank_text f.context)
    || is_nonempty f.insights
    || is_nonempty f.decisions
    || is_nonempty f.operational

abbrev of_note_fields : Llm → Option Fields → Outcome
of_note_fields w none = nothing
of_note_fields w (some f) =
    if has_note_content f
    then summary (record { date = w.today; source_id = none; fields = note_fields f })
    else nothing

abbrev of_note_reply : Llm → Reply → Outcome
of_note_reply w failed = llm_failed
of_note_reply w (reply r) = of_note_fields w (w.parse_fields (clean_response r))

-- `extract_from_text`, with the model's answer on the text
unfoldable pub extract_from_text : Llm → (Text → Reply) → Text → Outcome
extract_from_text w ask_note text =
    if not w.enabled || is_blank_text text then nothing else of_note_reply w (ask_note text)
