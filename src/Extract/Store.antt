-- ===== src/Extract/Store.antt =====
-- A summary becomes files: `write_memory_file` of procedures/extract_memory.py, with the gate of
-- procedures/mem_authority.py in front. The date some days later is a parameter. The log of the changes
-- (`_memory_diff`) is not modelled.
pub mod Gated
use dinomem.Prelude.{
  ℕ, suc, Bool, true, false, not, Option, none, some, List, [], ◌∷◌, ◌++◌, map, filter, take,
  if◌then◌else◌,
}
use dinomem.Prelude.Text.{Text, codes, strip, starts_with, contains}
use dinomem.Retention.Run.{Directory}
use dinomem.Authority.Owners.{Environment, is_owner}
use dinomem.Authority.Gate.{flag, gate_world_fact}
use dinomem.Extract.Archive.{is_blank_text}
use dinomem.Extract.Tags.{Python}
use dinomem.Extract.Summary.{Fields, Summary}
use dinomem.Extract.Item.{Stamp, write_item_file}
use dinomem.Extract.Contradiction.{Judge, Checked, kept, raised, contradiction_check_items}

pub record Setting : Type 1 where
  pub judge : Judge
  pub environment : Environment
  pub peers : Directory
  pub days_later : Text → ℕ → Text

-- an item with its tag in front
abbrev with_tag : Text → Text → Text
with_tag tag item = if starts_with tag item then item else tag ++ (codes " " ++ item)

unfoldable pub tag_items : Text → List Text → List Text
tag_items tag items = map (with_tag tag) (filter (λ i. not (is_blank_text i)) items)

abbrev with_expiry : Text → Text → Text
with_expiry expiry item =
    if contains (codes "[expires:") item
    then item
    else item ++ (codes " [expires:" ++ (expiry ++ codes "]"))

-- `ttl_tag`
unfoldable pub ttl_tag : Text → List Text → List Text
ttl_tag expiry items = map (with_expiry expiry) items

-- `_gate_list`
unfoldable pub gate_items : (ℕ → Bool) → List Text → List Text
gate_items is_word [] = []
gate_items is_word (item ∷ items) =
    let rest = gate_items is_word items in
    let gated = gate_world_fact is_word item (flag false) in
    if gated.keep then gated.out_text ∷ rest else rest

-- the items of a source, behind the gate if it is no owner
unfoldable pub gate_list : (ℕ → Bool) → Bool → List Text → List Text
gate_list is_word is_owner_src items = if is_owner_src then items else gate_items is_word items

-- The four lists that are compared with the memory.
pub record Facts : Type 0 where
  pub decisions : List Text
  pub corrections : List Text
  pub operational : List Text
  pub insights : List Text

-- The lists with their dates of expiry, behind the gate.
unfoldable pub gated_facts : Setting → Summary → Facts
gated_facts w s =
    let is_word = w.judge.python.is_word in
    let is_owner_src = is_owner w.environment s.source_id in
    record {
      decisions =
          gate_list is_word is_owner_src (ttl_tag (w.days_later s.date 180) s.fields.decisions);
      corrections =
          gate_list is_word is_owner_src (ttl_tag (w.days_later s.date 365) s.fields.corrections);
      operational =
          gate_list is_word is_owner_src (ttl_tag (w.days_later s.date 90) s.fields.operational);
      insights = gate_list is_word is_owner_src s.fields.insights;
    }

-- the facts that are left, or a NameError
abbrev pub Prepared : Type 0
Prepared = Option Facts × Directory

abbrev pub after_check : Checked × Directory → (List Text → Directory → Prepared) → Prepared
after_check (kept items, dir) rest = rest items dir
after_check (raised, dir) rest = (none, dir)

-- The four comparisons, one after the other.
unfoldable pub check_facts : Setting → Facts → Directory → Prepared
check_facts w f dir =
    after_check (contradiction_check_items w.judge w.peers f.decisions dir) λ decisions dir₁.
      after_check (contradiction_check_items w.judge w.peers f.corrections dir₁) λ corrections dir₂.
        after_check (contradiction_check_items w.judge w.peers f.operational dir₂)
          λ operational dir₃.
            after_check (contradiction_check_items w.judge w.peers f.insights dir₃) λ insights dir₄.
              (
                some (record {
                  decisions = decisions;
                  corrections = corrections;
                  operational = operational;
                  insights = insights;
                }),
                dir₄,
              )

abbrev of_type : Text → List Text → List (Text × Text)
of_type item_type items = map (λ i. (item_type, i)) items

-- `item_groups`, one item after the other
unfoldable pub typed_items : Facts → Fields → List (Text × Text)
typed_items facts f =
    of_type (codes "insight") facts.insights
    ++ (of_type (codes "source_score") f.source_scores
        ++ (of_type (codes "decision") facts.decisions
            ++ (of_type (codes "correction") facts.corrections
                ++ (of_type (codes "operational") facts.operational
                    ++ (of_type (codes "preference") f.user_preferences
                        ++ (of_type (codes "user_fact")
                              (tag_items (codes "[user_fact]") f.user_facts)
                            ++ (of_type (codes "relation")
                                  (tag_items (codes "[relation]") f.relations)
                                ++ of_type (codes "entity")
                                    (tag_items (codes "[entity]") f.entities))))))))

-- The loop that writes; the names of the files that are written.
unfoldable pub write_items : Python → Stamp → List (Text × Text) → Directory → List Text × Directory
write_items py stamp [] dir = ([], dir)
write_items py stamp ((item_type, item) ∷ items) dir =
    let (ok, name, dir') = write_item_file py stamp item_type item dir in
    let (names, after) = write_items py stamp items dir' in
    (if ok then name ∷ names else names, after)

unfoldable pub stamp_of : Summary → Text → Stamp
stamp_of s seed_verdict = record {
  date = s.date;
  topics = take 8 s.fields.topics;
  context_snippet = take 80 (strip s.fields.context);
  seed_verdict = seed_verdict;
}

-- the names of the files that are written, or a NameError
abbrev pub Stored : Type 0
Stored = Option (List Text) × Directory

abbrev pub write_prepared : Setting → Summary → Text → Prepared → Stored
write_prepared w s seed_verdict (none, dir) = (none, dir)
write_prepared w s seed_verdict (some facts, dir) =
    let (names, after) =
      write_items w.judge.python (stamp_of s seed_verdict) (typed_items facts s.fields) dir in
    (some names, after)

-- `write_memory_file`
unfoldable pub write_memory_file : Setting → Summary → Text → Directory → Stored
write_memory_file w s seed_verdict dir =
    write_prepared w s seed_verdict (check_facts w (gated_facts w s) dir)
