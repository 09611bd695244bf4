-- ===== src/Extract/Tags.antt =====
-- The tags of an item: the patterns of `_write_item_file` and `_strip_meta_tags` and the slug of `_slugify`
-- in procedures/extract_memory.py. What `\w` and `\d` match and `str.lower` are parameters.
use dinomem.Prelude.{
  ℕ, zero, suc, ◌-◌, Bool, false, ◌||◌, Option, none, some, [], ◌∷◌, ◌==◌, if◌then◌else◌, length,
  take, filter,
}
use dinomem.Prelude.Text.{Text, codes, is_space, strip, strip_prefix}

pub record Python : Type 0 where
  pub is_word : ℕ → Bool
  pub is_digit : ℕ → Bool
  pub lower : Text → Text

abbrev pub and_then {ℓ} : {A : Type ℓ} → Option Text → (Text → Option A) → Option A
and_then none f = none
and_then (some s) f = f s

-- what is behind one character, `p*`, `p+`, and `[^\]]*\]`
unfoldable pub behind_char : ℕ → Text → Option Text
behind_char x [] = none
behind_char x (c ∷ s) = if c == x then some s else none

unfoldable pub behind_run : (ℕ → Bool) → Text → Text
behind_run p [] = []
behind_run p (c ∷ s) = let rest = behind_run p s in if p c then rest else c ∷ s

unfoldable pub behind_some : (ℕ → Bool) → Text → Option Text
behind_some p [] = none
behind_some p (c ∷ s) = if p c then some (behind_run p s) else none

unfoldable pub behind_close : Text → Option Text
behind_close [] = none
behind_close (c ∷ s) = let rest = behind_close s in if c == b']' then some s else rest

-- `\s*\[\w+:[^\]]*\]`
unfoldable pub behind_tag : Python → Text → Option Text
behind_tag py s =
    and_then (behind_char b'[' (behind_run is_space s))
      λ a. and_then (behind_some py.is_word a) λ b. and_then (behind_char b':' b) behind_close

abbrev or_else : Option Text → Option Text → Option Text
or_else none o = o
or_else (some s) o = some s

-- `\s*\[(ctx|expires):[^\]]*\]`
unfoldable pub behind_meta_tag : Text → Option Text
behind_meta_tag s =
    let t = behind_run is_space s in
    and_then (or_else (strip_prefix (codes "[ctx:") t) (strip_prefix (codes "[expires:") t))
      behind_close

-- `re.sub(pattern, "", s)` for a pattern that matches no empty text; the number is what is left of a match.
unfoldable pub erase : (Text → Option Text) → ℕ → Text → Text
erase m k [] = []
erase m zero (c ∷ s) = elim (m (c ∷ s)) [
  | none ↦ c ∷ erase m zero s
  | some rest ↦ erase m (length s - length rest) s
]
erase m (suc k) (c ∷ s) = erase m k s

-- `_strip_meta_tags`
unfoldable pub strip_meta_tags : Text → Text
strip_meta_tags s = strip (erase behind_meta_tag 0 s)

-- `^\[(\w+)\]\s*`
unfoldable pub without_type_tag : Python → Text → Text
without_type_tag py s =
    elim (and_then (behind_char b'[' s)
      λ a. and_then (behind_some py.is_word a) (behind_char b']')) [
        | none ↦ s
        | some rest ↦ behind_run is_space rest
      ]

-- `clean_text`
unfoldable pub clean_text : Python → Text → Text
clean_text py item = without_type_tag py (strip (erase (behind_tag py) 0 item))

-- `[^\]]+` and the bracket
unfoldable pub until_close : Text → Option Text
until_close [] = none
until_close (c ∷ s) =
    let rest = until_close s in
    if c == b']' then some [] else elim rest [ none ↦ none | some v ↦ some (c ∷ v) ]

abbrev if_nonempty : Option Text → Option Text
if_nonempty none = none
if_nonempty (some []) = none
if_nonempty (some (c ∷ v)) = some (c ∷ v)

abbrev value_here : Text → Text → Option Text
value_here p s = if_nonempty (and_then (strip_prefix p s) until_close)

-- the group of the first match, or nothing
unfoldable pub first_match : (Text → Option Text) → Text → Text
first_match m [] = []
first_match m (c ∷ s) = elim (m (c ∷ s)) [ none ↦ first_match m s | some v ↦ v ]

-- `\[expires:([^\]]+)\]` and `\[ctx:([^\]]+)\]`
unfoldable pub expires_of : Text → Text
expires_of s = first_match (value_here (codes "[expires:")) s

unfoldable pub ctx_of : Text → Text
ctx_of s = first_match (value_here (codes "[ctx:")) s

-- the digits in front
unfoldable pub digits : (ℕ → Bool) → Text → Text
digits p [] = []
digits p (c ∷ s) = let rest = digits p s in if p c then c ∷ rest else []

abbrev closed : Text → Text → Option Text
closed v rest = elim (behind_char b']' rest) [ none ↦ none | some _ ↦ some v ]

-- `(?:\.\d+)?\]` behind the first digit
abbrev fraction : Python → ℕ → Text → Option Text
fraction py d [] = none
fraction py d (c ∷ s) =
    if c == b'.'
    then and_then (behind_some py.is_digit s) (closed (d ∷ b'.' ∷ digits py.is_digit s))
    else closed (d ∷ []) (c ∷ s)

abbrev score : Python → Text → Option Text
score py [] = none
score py (c ∷ s) = if c == b'0' || c == b'1' then fraction py c s else none

-- `\[conf:\s*([01](?:\.\d+)?)\]`
unfoldable pub confidence_of : Python → Text → Text
confidence_of py s =
    first_match
      (λ t. and_then (strip_prefix (codes "[conf:") t) λ a. score py (behind_run is_space a)) s

abbrev is_separator : ℕ → Bool
is_separator c = is_space c || c == b'_'

-- `[\s_]+` becomes a dash; the flag is whether the last character was one of them
unfoldable pub dashed : Bool → Text → Text
dashed inside [] = []
dashed inside (c ∷ s) =
    let rest = dashed (is_separator c) s in
    if is_separator c then (if inside then rest else b'-' ∷ rest) else c ∷ rest

-- `s.rstrip("-")`
unfoldable pub without_dashes_end : Text → Text
without_dashes_end [] = []
without_dashes_end (c ∷ s) = elim (without_dashes_end s) [
  | [] ↦ if c == b'-' then [] else c ∷ []
  | d ∷ r ↦ c ∷ d ∷ r
]

-- `_slugify`
unfoldable pub slugify : Python → ℕ → Text → Text
slugify py max_len text =
    let kept = filter (λ c. py.is_word c || is_space c || c == b'-') (strip (py.lower text)) in
    take max_len (without_dashes_end (behind_run (λ c. c == b'-') (dashed false kept)))
