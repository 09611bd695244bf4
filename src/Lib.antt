-- ===== src/Lib.antt =====
-- Verification of dinomem.
--
-- dinomem keeps an assistant's memory as text files that scheduled Python procedures write and tidy. A
-- session's transcript is archived when the session is reset (procedures/session_reset.py); facts that
-- are extracted from the archives become dated files in memory/; a daily review sends aged files to a
-- language model that tags each entry (procedures/memory_review.py); a retention sweep removes what the
-- review has not found valid (procedures/memory_retention.py). A cache of embeddings is pruned by
-- procedures/memory_cache_prune.py, and tools/tei_batch_chunk.py splits requests to the embedding server.
-- A daily cleanup (procedures/memory_cleanup.py) takes repeated and expired items out of the files and
-- trims the index. What may become a standing rule is decided by procedures/mem_authority.py. Lessons
-- from the archived sessions are found by procedures/improvement_scan.py, wait in a queue, and are given
-- out by procedures/improvement_propose.py; what is proposed then, or by procedures/skill_curator.py,
-- passes the gate of tools/route.py before a leaf tool such as tools/config_tool.py, the editor of the
-- agent's root files, writes it, or tools/cron_tool.py, which sets up schedules. The facts are extracted
-- from the archives by procedures/extract_memory.py; procedures/compile_user.py keeps a block of USER.md,
-- extract_user.py the files of the people it meets and a graph of their relations, and _file_backup.py
-- the copies of files that are about to change; commit_reason.py notes why a file changed, and
-- workspace_backup.py takes snapshots. Calls of the retrieval tools are counted by
-- procedures/_retrieval_log.py.
--
-- The parts meet in the files: a review writes the tags and the frozen marker that the sweep reads, and
-- both date a file by its name; the scan writes the queue that the proposals are drawn from; the
-- curator's proposals meet the gate. Review/File/Graduate, Improvement/Scan and Curator/Harmless have the
-- parts together; Extract/Store puts the gate of Authority in front of the files, which have the names
-- and tags that Dates, Retention and Cleanup read.
--
-- Which module models which code:
-- - Prelude: shared names, lists and tests over native numbers, `str` as a list of code points (Text,
--   with Text/Lines for the ends of lines), integers.
-- - Dates: `get_file_age` of both procedures, with `strptime` and `toordinal` for the format %Y-%m-%d.
-- - Retention: Entry has the line patterns, `_line_is_entry` and `_line_is_valid_entry`; Prune has
--   `prune_file`, whose result is the outcome and the file afterwards (`none` when it is gone); Run has
--   `run` over a directory, a list of names and contents.
-- - Review: Batch has `get_batch_size` and the cursor; Bucket the age buckets and the tracker; Verdicts
--   `all_entries_valid`; Prefilter `get_embeddings_for_files` and `prefilter_batch`; File the body of the
--   loop of `review`; Run the whole of `review`.
-- - Session: Clean has `cleanup_jsonl_content`; Chain the three counts of compactions; Filter
--   `filter_sessions_to_reset`; Archive `archive_predecessor_chain`; Flush `_force_flush_archive`; Reset
--   `reset_session`; Old `cleanup_old_archives`; Orphans `cleanup_orphaned_files`.
-- - TeiBatch: `chunk_list` and `embed_documents_batched`.
-- - CachePrune: `prune_db` over the two tables, with SQL's rule for NULL in NOT IN.
-- - Cleanup: Cluster has `cluster_items`; Dedup `semantic_dedup_items`; Expiring the second pass of
--   `cleanup`, Passes the others, their order and `prune_archive`; Index `trim_memory_index` and the two
--   marked sections.
-- - Authority: Config has `_find_dinotrust_maps` and the ids of the configuration; Owners `_owner_ids`
--   and `is_owner`; Tier `authority_tier`; Directive the patterns and `classify_scope`; Gate the two
--   gates.
-- - Improvement: Signals has the three detectors of improvement_scan.py, Scan its `scan` and `emit`,
--   Queue the queue of improvement_propose.py and its operations.
-- - Route: Proposal has the pending proposals of tools/route.py, Gate `_validate_action`, Approve the two
--   answers of the owner, Verify `_verify`, DupScan `_dup_scan`.
-- - Curator: the survey and the proposals of procedures/skill_curator.py, which meet the gate of Route.
-- - Extract: Archive has the chunks and windows of an archive, Source its sender, Summary what the model
--   says of it and the merging; Tags the patterns of an item, Item its file; Known the items that the
--   memory has, Contradiction the comparison with them; Store `write_memory_file`; Run the batches, the
--   log of processed archives and `main`.
-- - Cron: Arguments has `_parse_argv` and `_parse_schedule` of tools/cron_tool.py, Plan its checks, the
--   command lines and the three commands.
-- - Peers: Graph has the relations of procedures/extract_user.py, Derive what is written into the file of
--   a person.
-- - Backup: procedures/_file_backup.py.
-- - CommitReason: procedures/commit_reason.py.
-- - Snapshot: `_skip`, the archive, the choice of one and its restore in procedures/workspace_backup.py.
-- - UserMap: Upsert has `upsert_user_md` of procedures/compile_user.py.
-- - RetrievalLog: the counts per tool of procedures/_retrieval_log.py and their sums.
-- - ConfigTool: Guard has `_guard`, `_normalize` and `check_size`; Sections `_find_section`; Write the
--   four operations.
--
-- How the code is read. A file's content is what a text-mode read returns. An operation that raises has
-- changed nothing, and which operations raise is a parameter (Surroundings, Reviewer, Place), as are the
-- answers of git, the language model, the embedding server and the run of the extraction that flushes an
-- archive. A review sees files that can be read. Two vectors are similar by a test that stands for the
-- comparison of floats. A line of a transcript is taken after `json.loads`, and paths are resolved ones
-- without symbolic links. ConfigTool holds the files as they are written and reads them with `translate`.
-- What Python's character tables and `json.loads` answer is a parameter (Python, is_alpha, is_word,
-- lower). A set of ids is a list. Dates have ASCII digits. Times of sessions are in microseconds, and of
-- files in seconds.
--
-- Fuel. `depth_loop` has one round more than there are transcripts and `chain_loop` one more than twice
-- their number; both answer `none` when fuel runs out. A round meets a transcript for the first time or
-- archives it for good. `lineage_loop` counts down the ceiling of 40 hops that the code has.
-- `embed_texts` and `slices` have a round for each item, and each round takes at least one.
--
-- Not modelled: log lines and reports, the texts of prompts and of change messages, the statistics by
-- reason, file sizes and VACUUM, command lines, the adoption of the host's archives in session_reset.py,
-- the sections on recent work and open projects that memory_cleanup.py collects from the notes, the
-- excerpts and counts of skills in improvement_scan.py, the linter and the listing of route.py, the log
-- of changes, the compaction and the status of extract_memory.py, the reading of the peers in
-- compile_user.py, averages of scores and the roll-up of _retrieval_log.py, the slices of groups and the
-- compaction of extract_user.py, the exports, the rotation and the restore of schedules and of single
-- files in workspace_backup.py, the limits that are read from openclaw.json, and the other procedures,
-- tools, scripts, plugins and benchmarks.
pub mod Prelude
pub mod Dates
pub mod Retention
pub mod Review
pub mod Session
pub mod TeiBatch
pub mod CachePrune
pub mod Improvement
pub mod ConfigTool
pub mod Cleanup
pub mod Authority
pub mod Route
pub mod Curator
pub mod RetrievalLog
pub mod Extract
pub mod Cron
pub mod UserMap
pub mod Peers
pub mod Backup
pub mod CommitReason
pub mod Snapshot
