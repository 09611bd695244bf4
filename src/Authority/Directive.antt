-- ===== src/Authority/Directive.antt =====
-- The classifier of procedures/mem_authority.py: the patterns of `_DIRECTIVE_PATTERNS`, what
-- `search` finds of them under IGNORECASE, and `classify_scope`.
use dinomem.Prelude.{
  ℕ, zero, suc, ◌+◌, Bool, true, false, ◌&&◌, ◌||◌, not, Option, none, some, List, [], ◌∷◌, ◌++◌,
  leb, ◌==◌, any, if◌then◌else◌,
}
use dinomem.Prelude.Text.{Text, codes, is_space}

-- The constructs that the patterns use. Alternatives and options are in no order, since only whether
-- there is a match matters.
pub data Pattern : Type 0 where
  word : Text → Pattern
  then_ either : Pattern → Pattern → Pattern
  optional : Pattern → Pattern
  boundary begin spaces : Pattern
  up_to : ℕ → Pattern

-- The character in front, if there is one, and the text behind.
abbrev pub Position : Type 0
Position = Option ℕ × Text

-- One letter under IGNORECASE: Unicode folds a few more characters with `i`, `k` and `s`.
unfoldable pub fold_eq : ℕ → ℕ → Bool
fold_eq p c =
    c == p
    || leb b'a' p && leb p b'z' && c + 32 == p
    || p == b'i' && (c == 0x130 || c == 0x131)
    || p == b'k' && c == 0x212a
    || p == b's' && c == 0x17f

-- the position behind a literal
unfoldable pub behind_word : Text → Option ℕ → Text → List Position
behind_word [] before s = (before, s) ∷ []
behind_word (p ∷ w) before [] = []
behind_word (p ∷ w) before (c ∷ s) =
    let rest = behind_word w (some c) s in if fold_eq p c then rest else []

-- the positions behind `\s*`
unfoldable pub behind_spaces : Option ℕ → Text → List Position
behind_spaces before [] = (before, []) ∷ []
behind_spaces before (c ∷ s) =
    let rest = behind_spaces (some c) s in (before, c ∷ s) ∷ (if is_space c then rest else [])

-- the positions behind `.{0,n}`
unfoldable pub behind_any : ℕ → Option ℕ → Text → List Position
behind_any zero before s = (before, s) ∷ []
behind_any (suc n) before [] = (before, []) ∷ []
behind_any (suc n) before (c ∷ s) =
    let rest = behind_any n (some c) s in (before, c ∷ s) ∷ (if c == 10 then [] else rest)

abbrev word_before : (ℕ → Bool) → Option ℕ → Bool
word_before is_word none = false
word_before is_word (some c) = is_word c

abbrev word_after : (ℕ → Bool) → Text → Bool
word_after is_word [] = false
word_after is_word (c ∷ s) = is_word c

abbrev differ : Bool → Bool → Bool
differ a b = a && not b || b && not a

abbrev at_begin : Option ℕ → Bool
at_begin none = true
at_begin (some c) = false

abbrev here_if : Bool → Position → List Position
here_if b pos = if b then pos ∷ [] else []

unfoldable pub bind : (Position → List Position) → List Position → List Position
bind f [] = []
bind f (pos ∷ ps) = f pos ++ bind f ps

-- The positions behind a match at a position; `is_word` is what `\w` matches.
unfoldable pub behind : (ℕ → Bool) → Pattern → Position → List Position
behind is_word (word w) (before, s) = behind_word w before s
behind is_word (then_ p q) pos = bind (behind is_word q) (behind is_word p pos)
behind is_word (either p q) pos = behind is_word p pos ++ behind is_word q pos
behind is_word (optional p) pos = behind is_word p pos ++ (pos ∷ [])
behind is_word boundary (before, s) =
    here_if (differ (word_before is_word before) (word_after is_word s)) (before, s)
behind is_word begin (before, s) = here_if (at_begin before) (before, s)
behind is_word spaces (before, s) = behind_spaces before s
behind is_word (up_to n) (before, s) = behind_any n before s

abbrev pub matches : (ℕ → Bool) → Pattern → Position → Bool
matches is_word p pos = elim (behind is_word p pos) [ [] ↦ false | q ∷ qs ↦ true ]

-- `bool(pattern.search(text))`, from a position on
unfoldable pub search_from : (ℕ → Bool) → Pattern → Option ℕ → Text → Bool
search_from is_word p before [] = matches is_word p (before, [])
search_from is_word p before (c ∷ s) =
    matches is_word p (before, c ∷ s) || search_from is_word p (some c) s

-- words, one of which matches
unfoldable pub one_of : Text → List Text → Pattern
one_of w [] = word w
one_of w (v ∷ ws) = either (word w) (one_of v ws)

-- patterns one behind the other
unfoldable pub in_row : Pattern → List Pattern → Pattern
in_row p [] = p
in_row p (q ∷ ps) = then_ p (in_row q ps)

-- `\b...\b`
abbrev bounded : List Pattern → Pattern
bounded ps = in_row boundary (ps ++ (boundary ∷ []))

abbrev all_the_any : Pattern
all_the_any = optional (one_of (codes "all ") (codes "the " ∷ codes "any " ∷ []))

abbrev the : Pattern
the = optional (word (codes "the "))

-- `_DIRECTIVE_PATTERNS`
unfoldable pub directive_patterns : List Pattern
directive_patterns =
    bounded (
      word (codes "ignore ")
      ∷ all_the_any
      ∷ one_of (codes "previous") (codes "prior" ∷ codes "above" ∷ codes "earlier" ∷ [])
      ∷ [])
    ∷ bounded (
        word (codes "disregard ")
        ∷ all_the_any
        ∷ one_of (codes "previous") (codes "prior" ∷ codes "above" ∷ codes "instructions" ∷ [])
        ∷ [])
    ∷ bounded (word (codes "you are now") ∷ [])
    ∷ bounded (word (codes "from now on") ∷ optional (word (codes ",")) ∷ word (codes " you") ∷ [])
    ∷ bounded (
        word (codes "act as ")
        ∷ either (word (codes "if you are"))
            (either (then_ (word (codes "a")) (optional (word (codes "n")))) (word (codes "the")))
        ∷ [])
    ∷ bounded (word (codes "pretend ") ∷ one_of (codes "to be") (codes "you are" ∷ []) ∷ [])
    ∷ bounded (
        word (codes "new ")
        ∷ optional (word (codes "system "))
        ∷ either (then_ (word (codes "instruction")) (optional (word (codes "s")))) (
            either (then_ (word (codes "rule")) (optional (word (codes "s"))))
              (word (codes "directive")))
        ∷ [])
    ∷ in_row begin (spaces ∷ word (codes "system") ∷ spaces ∷ word (codes ":") ∷ [])
    ∷ bounded (word (codes "system prompt") ∷ [])
    ∷ bounded (
        word (codes "owner ")
        ∷ either (one_of (codes "approved") (codes "authorized" ∷ codes "said" ∷ [])) (
            either (then_ (word (codes "allow")) (optional (word (codes "s"))))
              (then_ (word (codes "permit")) (optional (word (codes "s")))))
        ∷ [])
    ∷ bounded (
        one_of (codes "grant") (codes "give" ∷ codes "enable" ∷ codes "elevate" ∷ [])
        ∷ word (codes " ")
        ∷ optional (word (codes "me "))
        ∷ optional (one_of (codes "full ") (codes "admin " ∷ codes "root " ∷ []))
        ∷ word (codes "access")
        ∷ [])
    ∷ bounded (
        one_of (codes "disable")
          (codes "bypass" ∷ codes "turn off" ∷ codes "override" ∷ codes "ignore" ∷ [])
        ∷ word (codes " ")
        ∷ the
        ∷ one_of (codes "security")
            (codes "safety" ∷ codes "approval" ∷ codes "guard" ∷ codes "permission" ∷ [])
        ∷ [])
    ∷ bounded (
        word (codes "mark me as ")
        ∷ one_of (codes "owner") (codes "admin" ∷ codes "trusted" ∷ [])
        ∷ [])
    ∷ bounded (
        word (codes "i am ")
        ∷ the
        ∷ either (one_of (codes "owner") (codes "admin" ∷ [])) (
            then_ (word (codes "your "))
              (one_of (codes "owner") (codes "creator" ∷ codes "developer" ∷ [])))
        ∷ [])
    ∷ bounded (
        word (codes "always ")
        ∷ one_of (codes "push") (
            codes "commit"
            ∷ codes "deploy"
            ∷ codes "run"
            ∷ codes "execute"
            ∷ codes "send"
            ∷ codes "delete"
            ∷ codes "write"
            ∷ codes "edit"
            ∷ [])
        ∷ boundary
        ∷ up_to 40
        ∷ boundary
        ∷ one_of (codes "without asking") (codes "automatically" ∷ codes "no confirm" ∷ [])
        ∷ [])
    ∷ bounded (
        word (codes "never ")
        ∷ one_of (codes "ask") (codes "confirm" ∷ codes "require approval" ∷ codes "verify" ∷ [])
        ∷ [])
    ∷ bounded (
        one_of (codes "you") (codes "the assistant" ∷ codes "the bot" ∷ codes "the agent" ∷ [])
        ∷ word (codes " ")
        ∷ one_of (codes "must") (codes "should" ∷ codes "will" ∷ codes "shall" ∷ [])
        ∷ word (codes " ")
        ∷ one_of (codes "always") (codes "never" ∷ [])
        ∷ [])
    ∷ []

pub data Scope : Type 0 where
  personalization directive : Scope

-- `_DIRECTIVE_RE.search(text)`; the alternatives of the joined pattern are searched one by one
unfoldable pub is_directive : (ℕ → Bool) → Text → Bool
is_directive is_word text = any (λ p. search_from is_word p none text) directive_patterns

-- `classify_scope`
unfoldable pub classify_scope : (ℕ → Bool) → Text → Scope
classify_scope is_word [] = personalization
classify_scope is_word (c ∷ text) =
    if is_directive is_word (c ∷ text) then directive else personalization
