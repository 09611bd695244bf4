-- ===== src/Review/Run/Batched.antt =====
-- What one run of `review` reaches of its batch.
use dinomem.Prelude.{
  ℕ, ◌≡◌, refl, ap, sym, ◌∙◌, inl, inr, Bool, true, false, Option, none, some, List, [], ◌∷◌, map,
  ltb, if◌then◌else◌, length, take, arith, Bool-cases, Option-cases, All, take_all,
}
use mathlib.Core.List.{append-nil}
use dinomem.Prelude.Text.{Text, text_eq, text_eq_refl, text_eq_iff}
use dinomem.Review.Prefilter.{
  Source, Embedder, prefilter_batch, split_up, get_embeddings_for_files, firsts, seconds,
  has_neighbor, flagged, unflagged,
}
use dinomem.Review.Prefilter.Partition.{length-has_neighbor, length-firsts}
use dinomem.Retention.Run.{Directory}
use dinomem.Retention.Run.Files.{find_file}
use dinomem.Review.File.{Reviewer, Report, review_file}
use dinomem.Review.Run.{replace_file, review_files, same_names, tei_active, ordered_files}

same_names_refl : (xs : List Text) → same_names xs xs ≡ true
unfolding same_names
same_names_refl [] = refl
same_names_refl (x ∷ xs) = rw (text_eq_refl x) (same_names_refl xs)

-- What the loop sees when the whole batch has priority: at most `cap` files of it.
all_priority_capped :
    (cap : ℕ) (md_files : List Text) → ordered_files cap md_files md_files [] ≡ take cap md_files
unfolding ordered_files tei_active
all_priority_capped cap md_files = rw (same_names_refl md_files) (append-nil _ ∙ capped)
  where
    capped : (if ltb cap (length md_files) then take cap md_files else md_files) ≡ take cap md_files
    capped = elim (Bool-cases (ltb cap (length md_files))) [
      | inl more ↦ rw more
      | inr fits ↦ rw fits (sym (take_all cap md_files (ground arith)))
    ]

flagged_all :
    (paths : List Text) (flags : List Bool)
    → length flags ≡ length paths
    → unflagged paths flags ≡ []
    → flagged paths flags ≡ paths
flagged_all [] [] h u = refl
flagged_all [] (b ∷ flags) h u = absurd (omega arith)
flagged_all (p ∷ paths) [] h u = absurd (omega arith)
flagged_all (p ∷ paths) (true ∷ flags) h u =
    ap (λ r. p ∷ r) (flagged_all paths flags (omega arith) u)
flagged_all (p ∷ paths) (false ∷ flags) h u = absurd (cc u)

-- If every file of the batch has been embedded and has a similar neighbour, the run takes the server
-- for absent: it reviews the first `cap` files only, as when there are no embeddings.
pub all_similar_capped :
    {V : Type 0} (e : Embedder V) (cap : ℕ) (files : List Source) (embs : List (Text × V))
    → get_embeddings_for_files e files ≡ some embs
    → firsts embs ≡ map (λ f. f.path) files
    → unflagged (firsts embs) (has_neighbor e.similar (seconds embs)) ≡ []
    → let md_files = map (λ f. f.path) files in
      let (priority, isolated) = prefilter_batch e files in
      ordered_files cap md_files priority isolated ≡ take cap md_files
unfolding prefilter_batch
all_similar_capped e cap files embs h p u =
    let all =
      flagged_all (firsts embs) (has_neighbor e.similar (seconds embs))
        (length-has_neighbor e.similar (seconds embs) ∙ length-firsts embs) u in
    rw h
      (unfold split_up in rw u (rw all (rw p (all_priority_capped cap (map (λ f. f.path) files)))))

-- The name is not among those that the loop goes through.
abbrev pub IsAbsent : Text → List Text → Type 0
IsAbsent name = All (λ n. text_eq n name ≡ false)

find-replace_file :
    (j k : Text) (after : Option Text) (dir : Directory)
    → text_eq k j ≡ false
    → find_file j (replace_file k after dir) ≡ find_file j dir
unfolding find_file replace_file
find-replace_file j k after [] h = refl
find-replace_file j k none ((n, c) ∷ dir) h =
    ground
      (arith, text_eq_iff n k, text_eq_iff n j, text_eq_iff k j, find-replace_file j k none dir)
find-replace_file j k (some d) ((n, c) ∷ dir) h =
    ground
      (arith, text_eq_iff n k, text_eq_iff n j, text_eq_iff k j, find-replace_file j k (some d) dir)

-- A run of the loop changes no file but those it goes through.
pub review_files-others :
    (r : Reviewer) (rep : Report) (dir : Directory) (ordered : List Text) (name : Text)
    → IsAbsent name ordered
    → find_file name (review_files r rep dir ordered).1 ≡ find_file name dir
unfolding review_files
review_files-others r rep dir [] name h = refl
review_files-others r rep dir (n ∷ ordered) name h = elim (Option-cases (find_file n dir)) [
  | inl e ↦ rw (e, review_files) (review_files-others r rep dir ordered name h.1)
  | inr (content, e) ↦
      let (rep', after) = review_file r n content rep in
      rw (e, review_files)
        (review_files-others r rep' (replace_file n after dir) ordered name h.1
          ∙ find-replace_file name n after dir h.0)
]
