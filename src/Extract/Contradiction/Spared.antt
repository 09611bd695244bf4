-- ===== src/Extract/Contradiction/Spared.antt =====
-- What the comparison of new items with the memory leaves alone.
use dinomem.Prelude.{
  ◌≡◌, refl, ap, sym, ◌∙◌, inl, inr, Bool, true, false, Option, none, some, List, [], ◌∷◌, arith,
  Bool-cases, Option-cases, any, All, ltb, length,
}
use dinomem.Prelude.Text.{Text, text_eq, text_eq_iff, split, strip}
use dinomem.Retention.Run.{Directory}
use dinomem.Retention.Run.Files.{find_file}
use dinomem.ConfigTool.Write.Guarded.{find-put_ne}
use dinomem.Extract.Archive.{is_blank_text}
use dinomem.Extract.Known.{Known, existing_items}
use dinomem.Extract.Contradiction.{
  Verdict, same, update, contradiction, unrelated, merge, Judge, Checked, kept, raised, remove_file,
  merge_target, merge_into, merge_item, is_better, content_lines, evict_from, evict, go_on,
  evict_all, Fate, keep, drop, crash, dropped_if_merged, by_verdict, candidates_of,
  judge_candidates, check_item, and_keep, by_fate, check_items, contradiction_check_items, is_only,
  line_at,
}

find-remove_ne :
    (f g : Text) (dir : Directory)
    → text_eq g f ≡ false
    → find_file f (remove_file g dir) ≡ find_file f dir
unfolding find_file remove_file
find-remove_ne f g [] n = refl
find-remove_ne f g ((h, c) ∷ dir) n =
    ground (arith, text_eq_iff h g, text_eq_iff h f, text_eq_iff g f, find-remove_ne f g dir n)

-- no candidate stands in the file
abbrev pub Away : Text → List Known → Type 0
Away f = All (λ k. text_eq k.file f ≡ false)

module _ (f : Text) where
  merge_target-Away :
      (dir : Directory) (ks : List Known) (k : Known) (lines : List Text)
      → Away f ks
      → merge_target dir ks ≡ some (k, lines)
      → text_eq k.file f ≡ false
  unfolding merge_target
  merge_target-Away dir [] k lines a h = absurd (cc)
  merge_target-Away dir (x ∷ ks) k lines a h = elim (Option-cases (find_file x.file dir)) [
    | inl e ↦ merge_target-Away dir ks k lines a.1 (rw (e, merge_target) at h)
    | inr (content, e) ↦ ground (arith, a.0, rw (e, merge_target) at h)
  ]

  merge_item-others :
      (merged : Text) (ks : List Known) (dir after : Directory)
      → Away f ks
      → merge_item merged ks dir ≡ some after
      → find_file f after ≡ find_file f dir
  unfolding merge_item
  merge_item-others merged ks dir after a h = elim (Bool-cases (is_blank_text merged)) [
    | inl e ↦ absurd (cc (rw e at h))
    | inr n ↦ into (merge_target dir ks) refl (rw n at h)
  ]
    where
      into :
          (o : Option (Known × List Text))
          → merge_target dir ks ≡ o
          → merge_into (strip merged) dir o ≡ some after
          → find_file f after ≡ find_file f dir
      into none q r = absurd (cc)
      into (some (k, lines)) q r = elim (Option-cases (line_at k.line_idx lines)) [
        | inl e ↦ absurd (cc (rw (e, merge_into) at r))
        | inr (line, e) ↦
            rw (sym (some_inj (rw (e, merge_into) at r)))
              (find-put_ne f k.file _ dir (merge_target-Away dir ks k lines a q))
      ]
        where
          some_inj : {d e : Directory} → some d ≡ some e → d ≡ e
          some_inj p = cc

  evict-others :
      (j : Judge) (item : Text) (k : Known) (dir : Directory)
      → text_eq k.file f ≡ false
      → find_file f (evict j item k dir).1 ≡ find_file f dir
  unfolding evict
  evict-others j item k dir n = elim (Bool-cases k.is_peer) [
    | inl e ↦ rw e refl
    | inr p ↦ rw p (elim (Option-cases (find_file k.file dir)) [
      | inl e ↦ rw e refl
      | inr (content, e) ↦ rw e (elim (Bool-cases (is_better j content item)) [
        | inl b ↦ rw b refl
        | inr b ↦ rw b (from (split 10 content))
      ])
    ])
  ]
    where
      from : (lines : List Text) → find_file f (evict_from k lines dir).1 ≡ find_file f dir
      from lines =
          unfold evict_from in
          elim (Bool-cases (is_only k.line_idx (content_lines 0 lines))) [
            | inl e ↦ rw e (find-remove_ne f k.file dir n)
            | inr e ↦ rw e (elim (Bool-cases (ltb k.line_idx (length lines))) [
              | inl l ↦ rw l (find-put_ne f k.file _ dir n)
              | inr l ↦ rw l refl
            ])
          ]

  evict_all-others :
      (j : Judge) (item : Text) (ks : List Known) (dir : Directory)
      → Away f ks
      → find_file f (evict_all j item ks dir).1 ≡ find_file f dir
  unfolding evict_all
  evict_all-others j item [] dir a = refl
  evict_all-others j item (k ∷ ks) dir a =
      further (λ d. evict_all-others j item ks d a.1) (evict j item k dir)
      ∙ evict-others j item k dir a.0
    where
      further :
          ((d : Directory) → find_file f (evict_all j item ks d).1 ≡ find_file f d)
          → (r : Bool × Directory) → find_file f (go_on r (evict_all j item ks)).1 ≡ find_file f r.1
      further rest (true, d) = refl
      further rest (false, d) = rest d

  by_verdict-others :
      (j : Judge) (item : Text) (ks : List Known) (dir : Directory) (v : Option Verdict)
      → Away f ks
      → find_file f (by_verdict j item ks dir v).1 ≡ find_file f dir
  by_verdict-others j item ks dir none a = refl
  by_verdict-others j item ks dir (some same) a = refl
  by_verdict-others j item ks dir (some (merge merged)) a =
      merged_or_kept (merge_item merged ks dir) refl
    where
      merged_or_kept :
          (o : Option Directory)
          → merge_item merged ks dir ≡ o
          → find_file f (dropped_if_merged dir o).1 ≡ find_file f dir
      merged_or_kept none q = refl
      merged_or_kept (some after) q = merge_item-others merged ks dir after a q
  by_verdict-others j item ks dir (some update) a = evict_all-others j item ks dir a
  by_verdict-others j item ks dir (some contradiction) a = evict_all-others j item ks dir a
  by_verdict-others j item ks dir (some unrelated) a = refl

  check_item-others :
      (j : Judge) (existing : List Known) (item : Text) (dir : Directory)
      → Away f (candidates_of j existing item)
      → find_file f (check_item j existing item dir).1 ≡ find_file f dir
  unfolding check_item
  check_item-others j existing item dir a = judged (candidates_of j existing item) a
    where
      judged :
          (ks : List Known)
          → Away f ks
          → find_file f (judge_candidates j item ks dir).1 ≡ find_file f dir
      judged [] h = refl
      judged (k ∷ ks) h = elim (Bool-cases (any (λ c. c.is_peer) (k ∷ ks))) [
        | inl e ↦ rw e refl
        | inr n ↦ rw n (by_verdict-others j item (k ∷ ks) dir _ h)
      ]

  check_items-others :
      (j : Judge) (existing : List Known) (items : List Text) (dir : Directory)
      → All (λ item. Away f (candidates_of j existing item)) items
      → find_file f (check_items j existing items dir).1 ≡ find_file f dir
  unfolding check_items
  check_items-others j existing [] dir a = refl
  check_items-others j existing (item ∷ items) dir a =
      further (λ d. check_items-others j existing items d a.1) (check_item j existing item dir)
      ∙ check_item-others j existing item dir a.0
    where
      keeps : (c : Checked × Directory) → find_file f (and_keep item c).1 ≡ find_file f c.1
      keeps (kept l, d) = refl
      keeps (raised, d) = refl

      further :
          ((d : Directory) → find_file f (check_items j existing items d).1 ≡ find_file f d)
          → (r : Fate × Directory)
          → find_file f (by_fate item (check_items j existing items) r).1 ≡ find_file f r.1
      further rest (keep, d) = keeps (check_items j existing items d) ∙ rest d
      further rest (drop, d) = rest d
      further rest (crash, d) = refl

  -- A file of which no item is as near as the threshold to a new item is as before, whatever the model answers.
  pub contradiction_check_items-others :
      (j : Judge) (peers : Directory) (items : List Text) (dir : Directory)
      → All (λ item. Away f (candidates_of j (existing_items j.upper dir peers) item)) items
      → find_file f (contradiction_check_items j peers items dir).1 ≡ find_file f dir
  unfolding contradiction_check_items
  contradiction_check_items-others j peers items dir a =
      check_items-others j (existing_items j.upper dir peers) items dir a

-- What the kept items are; a NameError keeps none.
abbrev pub AllKept : (Text → Type 0) → Checked → Type 0
AllKept P (kept items) = All P items
AllKept P raised = Unit

-- Every kept item is one of the new ones.
pub check_items-All :
    (P : Text → Type 0) (j : Judge) (existing : List Known) (items : List Text) (dir : Directory)
    → All P items
    → AllKept P (check_items j existing items dir).0
unfolding check_items
check_items-All P j existing [] dir h = tt
check_items-All P j existing (item ∷ items) dir h =
    further (λ d. check_items-All P j existing items d h.1) (check_item j existing item dir)
  where
    keeps : (c : Checked × Directory) → AllKept P c.0 → AllKept P (and_keep item c).0
    keeps (kept l, d) k = (h.0, k)
    keeps (raised, d) k = tt

    further :
        ((d : Directory) → AllKept P (check_items j existing items d).0)
        → (r : Fate × Directory) → AllKept P (by_fate item (check_items j existing items) r).0
    further rest (keep, d) = keeps (check_items j existing items d) (rest d)
    further rest (drop, d) = rest d
    further rest (crash, d) = tt

module _ (j : Judge) (item f content : Text) (better : is_better j content item ≡ true) where
  evict-better :
      (k : Known) (dir : Directory)
      → find_file f dir ≡ some content
      → find_file f (evict j item k dir).1 ≡ some content
  unfolding evict
  evict-better k dir h = elim (Bool-cases (text_eq k.file f)) [
    | inr n ↦ unfold evict in (evict-others f j item k dir n ∙ h)
    | inl e ↦ elim (Bool-cases k.is_peer) [
      | inl p ↦ rw p h
      | inr p ↦ rw p (rw (ap (λ g. find_file g dir) ((text_eq_iff k.file f).0 e) ∙ h) (rw better h))
    ]
  ]

  -- A file whose confidence is higher than that of the new item is left as it is by an update or a
  -- contradiction, wherever it stands among the candidates.
  pub evict_all-better :
      (ks : List Known) (dir : Directory)
      → find_file f dir ≡ some content
      → find_file f (evict_all j item ks dir).1 ≡ some content
  unfolding evict_all
  evict_all-better [] dir h = h
  evict_all-better (k ∷ ks) dir h =
      further (evict_all-better ks) (evict j item k dir) (evict-better k dir h)
    where
      further :
          ((d : Directory)
            → find_file f d ≡ some content
            → find_file f (evict_all j item ks d).1 ≡ some content)
          → (r : Bool × Directory) → find_file f r.1 ≡ some content
          → find_file f (go_on r (evict_all j item ks)).1 ≡ some content
      further rest (true, d) q = q
      further rest (false, d) q = rest d q
