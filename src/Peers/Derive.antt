-- ===== src/Peers/Derive.antt =====
-- What the model derives about a person goes into their file: `_append_under` and `apply_derive` of
-- procedures/extract_user.py, for a file that is there and can be read and written. `str.lower`, what a word
-- character is and the texts of confidences are given.
pub mod Demoted
use dinomem.Prelude.{
  ℕ, ◌-◌, Bool, true, false, not, ◌&&◌, ◌||◌, Option, none, some, List, [], ◌∷◌, ◌++◌, ◌==◌, length,
  take, if◌then◌else◌,
}
use dinomem.Prelude.Text.{
  Text, codes, text_eq, is_space, strip, rstrip, strip_prefix, contains, join,
}
use dinomem.Authority.Gate.{flag, gate_peer_fact}
use dinomem.Peers.Graph.{Relation, clean}

-- A fact and its confidence.
pub record Fact : Type 0 where
  pub text : Text
  pub confidence : Text

pub record RelationLine : Type 0 where
  pub verb : Text
  pub object : Text
  pub confidence : Text

pub record Derived : Type 0 where
  pub supersedes : List (Text × Text)
  pub facts : List Fact
  pub beat : List Fact
  pub ledger : List Text
  pub relations : List RelationLine

-- what is behind the last newline of the spaces in front
unfoldable pub behind_break : Text → Option Text
behind_break [] = none
behind_break (c ∷ s) =
    if is_space c
    then elim (behind_break s) [ some rest ↦ some rest | none ↦ if c == 10 then some s else none ]
    else none

abbrev and_break : Option Text → Option Text
and_break none = none
and_break (some rest) = behind_break rest

abbrev header_here : Bool → Text → Text → Option Text
header_here start header s = if start then and_break (strip_prefix header s) else none

-- The text up to the end of the first line with the header, and the rest; the flag is whether a line starts here.
unfoldable pub split_header : Bool → Text → Text → Option (Text × Text)
split_header start header [] = none
split_header start header (c ∷ s) = elim (header_here start header (c ∷ s)) [
  | some rest ↦ some (take (length (c ∷ s) - length rest) (c ∷ s), rest)
  | none ↦ elim (split_header (c == 10) header s) [
    | none ↦ none
    | some (pre, post) ↦ some (c ∷ pre, post)
  ]
]

abbrev pub under : Text → Text → Text → Option (Text × Text) → Text
under body header block (some (pre, post)) = pre ++ (block ++ (10 ∷ post))
under body header block none =
    rstrip body ++ (codes "\n\n## " ++ (header ++ (10 ∷ (block ++ codes "\n"))))

-- `_append_under`
unfoldable pub append_under : Text → Text → List Text → Text
append_under body header [] = body
append_under body header (l ∷ lines) =
    under body header (join (codes "\n") (l ∷ lines))
      (split_header true (codes "## " ++ header) body)

-- `s.replace(old, new, 1)`
unfoldable pub replace_first : Text → Text → Text → Text
replace_first old new [] = elim (strip_prefix old []) [ none ↦ [] | some rest ↦ new ]
replace_first old new (c ∷ s) = elim (strip_prefix old (c ∷ s)) [
  | some rest ↦ new ++ rest
  | none ↦ c ∷ replace_first old new s
]

abbrev supersede_known : Text → Text → Text → Text → Text
supersede_known today old new txt =
    append_under
      (replace_first old (new ++ (codes "  (conf: 0.9, ts: " ++ (today ++ codes ")"))) txt)
      (codes "PROVENANCE")
      ((codes "- [SUPERSEDED " ++ (today ++ (codes "] " ++ (old ++ (codes " -> " ++ new))))) ∷ [])

-- one round of the loop over `supersedes`, on the text and whether it is changed
unfoldable pub supersede : Text → Text × Text → Text × Bool → Text × Bool
supersede today (old, new) (txt, changed) =
    if text_eq (clean old) [] || text_eq (clean new) []
    then (txt, changed)
    else if contains (clean old) txt
    then (supersede_known today (clean old) (clean new) txt, true)
    else (txt, changed)

unfoldable pub supersede_all : Text → List (Text × Text) → Text × Bool → Text × Bool
supersede_all today [] t = t
supersede_all today (x ∷ xs) t = supersede_all today xs (supersede today x t)

unfoldable pub fact_line : Text → Text → Text → Text
fact_line text confidence today =
    codes "- "
    ++ (text ++ (codes "  (conf: " ++ (confidence ++ (codes ", ts: " ++ (today ++ codes ")")))))

-- The lines of new facts, or of new lines of the beat, behind the gate.
unfoldable pub fact_lines : (ℕ → Bool) → Bool → Text → Text → List Fact → List Text
fact_lines is_word is_owner_src today txt [] = []
fact_lines is_word is_owner_src today txt (f ∷ fs) =
    let rest = fact_lines is_word is_owner_src today txt fs in
    let t = (gate_peer_fact is_word (clean f.text) (flag is_owner_src)).out_text in
    if text_eq t [] || contains t txt then rest else fact_line t f.confidence today ∷ rest

unfoldable pub ledger_lines : Text → Text → List Text → List Text
ledger_lines today txt [] = []
ledger_lines today txt (l ∷ ls) =
    let rest = ledger_lines today txt ls in
    if text_eq (clean l) [] || contains (clean l) txt
    then rest
    else (codes "- " ++ (clean l ++ (codes "  (ts: " ++ (today ++ codes ")")))) ∷ rest

abbrev arrow : Text
arrow = codes " " ++ (0x2192 ∷ codes " ")

-- `line.split("  (conf")[0]`
unfoldable pub before_conf : Text → Text
before_conf [] = []
before_conf (c ∷ s) = elim (strip_prefix (codes "  (conf") (c ∷ s)) [
  | some rest ↦ []
  | none ↦ c ∷ before_conf s
]

unfoldable pub relation_line : Text → Text → Text → Text → Text → Text
relation_line subj verb object confidence today =
    codes "- "
    ++ (subj
        ++ (arrow
            ++ (verb
                ++ (arrow
                    ++ (object
                        ++ (codes "  (conf: "
                            ++ (confidence ++ (codes ", ts: " ++ (today ++ codes ")")))))))))

unfoldable pub relation_lines : (Text → Text) → Text → Text → Text → List RelationLine → List Text
relation_lines lower subj today txt [] = []
relation_lines lower subj today txt (r ∷ rs) =
    let rest = relation_lines lower subj today txt rs in
    let verb = lower (clean r.verb) in
    let line = relation_line subj verb (clean r.object) r.confidence today in
    if text_eq verb [] || text_eq (clean r.object) []
    then rest
    else if contains (before_conf line) txt
    then rest
    else line ∷ rest

-- the text from the next newline on
unfoldable pub behind_line : Text → Text
behind_line [] = []
behind_line (c ∷ s) = if c == 10 then c ∷ s else behind_line s

-- `re.sub(r"^last_updated:.*$", ..., count=1, flags=re.MULTILINE)`
unfoldable pub stamp_updated : Bool → Text → Text → Text
stamp_updated start today [] = []
stamp_updated start today (c ∷ s) =
    elim (if start then strip_prefix (codes "last_updated:") (c ∷ s) else none) [
      | some rest ↦ codes "last_updated: " ++ (today ++ behind_line rest)
      | none ↦ c ∷ stamp_updated (c == 10) today s
    ]

-- The sections with the new lines of each.
unfoldable pub with_lines : Text → List Text → List Text → List Text → List Text → Text
with_lines txt facts beat ledger relations =
    append_under
      (append_under (append_under (append_under txt (codes "FACTS") facts) (codes "BEAT") beat)
        (codes "LEDGER") ledger)
      (codes "RELATIONS") relations

abbrev pub is_empty : List Text → Bool
is_empty [] = true
is_empty (l ∷ ls) = false

abbrev stamped : Text → Bool → Text → Text
stamped today changed txt = if changed then stamp_updated true today txt else txt

-- The lines are written below the text of the first step, which is changed or not.
unfoldable pub derive_lines :
    (Text → Text) → (ℕ → Bool) → Bool → Text → Text → Derived → Text × Bool → Text
derive_lines lower is_word is_owner_src subj today d (txt, changed) =
    let facts = fact_lines is_word is_owner_src today txt d.facts in
    let beat = fact_lines is_word is_owner_src today txt d.beat in
    let ledger = ledger_lines today txt d.ledger in
    let relations = relation_lines lower subj today txt d.relations in
    let none_new = is_empty facts && (is_empty beat && (is_empty ledger && is_empty relations)) in
    stamped today (changed || not none_new) (with_lines txt facts beat ledger relations)

-- `apply_derive`: the text of the file afterwards
unfoldable pub apply_derive :
    (Text → Text) → (ℕ → Bool) → Bool → Text → Text → Derived → Text → Text
apply_derive lower is_word is_owner_src subj today d txt =
    derive_lines lower is_word is_owner_src subj today d
      (supersede_all today d.supersedes (txt, false))
