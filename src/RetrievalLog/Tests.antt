-- ===== src/RetrievalLog/Tests.antt =====
-- Two logs of one and two calls.
use dinomem.Prelude.{◌≡◌, true, false, some, List, [], ◌∷◌, ◌++◌}
use dinomem.Prelude.Text.{codes}
use dinomem.RetrievalLog.{Logged, Summary, summarize_records, merge_summaries, get_counts}
use dinomem.RetrievalLog.Sums.{Same, merge-summarize_records}

abbrev first_log : List Logged
first_log = record { tool = codes "a"; fallback_used = true; has_results = false } ∷ []

abbrev second_log : List Logged
second_log =
    record { tool = codes "b"; fallback_used = false; has_results = true }
    ∷ record { tool = codes "a"; fallback_used = false; has_results = true }
    ∷ []

merge-summarize_records_example :
    (merged : Summary) × (merge_summaries
        (some (summarize_records first_log))
        (some (summarize_records second_log))
      ≡ some merged)
    × (merged.total_calls ≡ (summarize_records (first_log ++ second_log)).total_calls)
    × Same
        (get_counts (codes "a") merged.per_tool)
        (get_counts (codes "a") (summarize_records (first_log ++ second_log)).per_tool)
merge-summarize_records_example = merge-summarize_records (codes "a") first_log second_log
