-- ===== src/RetrievalLog.antt =====
-- procedures/_retrieval_log.py: the counts that `_summarize_records` makes of the logged calls, and their sums in
-- `_merge_summaries`. The averages of scores and the rates, which are floats, are not modelled.
pub mod Sums
mod Tests
use dinomem.Prelude.{
  ℕ, ◌+◌, Bool, false, ◌||◌, not, Option, none, some, List, [], ◌∷◌, ◌++◌, length, if◌then◌else◌,
}
use dinomem.Prelude.Text.{Text, text_eq}

-- What is counted of a logged call.
pub record Logged : Type 0 where
  pub tool : Text
  pub fallback_used : Bool
  pub has_results : Bool

pub record Counts : Type 0 where
  pub calls : ℕ
  pub fallbacks : ℕ
  pub empty_results : ℕ

abbrev pub no_counts : Counts
no_counts = record { calls = 0; fallbacks = 0; empty_results = 0 }

abbrev pub PerTool : Type 0
PerTool = List (Text × Counts)

pub record Summary : Type 0 where
  pub total_calls : ℕ
  pub per_tool : PerTool

abbrev pub one_if : Bool → ℕ
one_if b = if b then 1 else 0

-- what one call adds
unfoldable pub count_call : Logged → Counts → Counts
count_call r t = record {
  calls = t.calls + 1;
  fallbacks = t.fallbacks + one_if r.fallback_used;
  empty_results = t.empty_results + one_if (not r.has_results);
}

-- `per_tool.setdefault(tool, ...)` and the increments
unfoldable pub add_call : Logged → PerTool → PerTool
add_call r [] = (r.tool, count_call r no_counts) ∷ []
add_call r ((tool, t) ∷ per_tool) =
    if text_eq tool r.tool
    then (tool, count_call r t) ∷ per_tool
    else (tool, t) ∷ add_call r per_tool

unfoldable pub summarize_from : List Logged → PerTool → PerTool
summarize_from [] per_tool = per_tool
summarize_from (r ∷ records) per_tool = summarize_from records (add_call r per_tool)

-- `_summarize_records`
unfoldable pub summarize_records : List Logged → Summary
summarize_records records = record {
  total_calls = length records;
  per_tool = summarize_from records [];
}

-- `per_tool.get(tool, {})`, with its defaults
unfoldable pub get_counts : Text → PerTool → Counts
get_counts tool [] = no_counts
get_counts tool ((k, t) ∷ per_tool) =
    let rest = get_counts tool per_tool in if text_eq k tool then t else rest

abbrev pub add_counts : Counts → Counts → Counts
add_counts s t = record {
  calls = s.calls + t.calls;
  fallbacks = s.fallbacks + t.fallbacks;
  empty_results = s.empty_results + t.empty_results;
}

-- the tools of the first summary with their sums
unfoldable pub sums_of : PerTool → PerTool → PerTool
sums_of [] b = []
sums_of ((tool, t) ∷ a) b = (tool, add_counts t (get_counts tool b)) ∷ sums_of a b

unfoldable pub has_tool : Text → PerTool → Bool
has_tool tool [] = false
has_tool tool ((k, t) ∷ per_tool) = text_eq k tool || has_tool tool per_tool

-- the tools of the second summary that the first does not have
unfoldable pub others_of : PerTool → PerTool → PerTool
others_of a [] = []
others_of a ((tool, t) ∷ b) =
    let rest = others_of a b in if has_tool tool a then rest else (tool, t) ∷ rest

-- `_merge_summaries`; none is a summary that is not there. The tools come in some order.
unfoldable pub merge_summaries : Option Summary → Option Summary → Option Summary
merge_summaries none b = b
merge_summaries (some a) none = some a
merge_summaries (some a) (some b) = some (record {
  total_calls = a.total_calls + b.total_calls;
  per_tool = sums_of a.per_tool b.per_tool ++ others_of a.per_tool b.per_tool;
})
