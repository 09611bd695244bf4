-- ===== src/Cron/Arguments.antt =====
-- The arguments of tools/cron_tool.py: `_parse_argv`, `_parse_schedule`, the listing of the jobs and the search
-- for one. A dictionary is an association list in the order of writing, whose last entry counts; `str.lower` and `json.loads` are parameters.
pub mod RoundTrip
use dinomem.Prelude.{
  ℕ, Bool, true, false, ◌&&◌, ◌||◌, Option, none, some, List, [], ◌∷◌, ◌++◌, ◌==◌, map, any,
  if◌then◌else◌,
}
use dinomem.Prelude.Text.{Text, codes, text_eq, strip, strip_prefix}

-- A flag without a value, or one with a value.
pub data Value : Type 0 where
  set : Value
  given : Text → Value

abbrev pub Args : Type 0
Args = List (Text × Value)

-- `a[2:].replace("-", "_")`
unfoldable pub flag_key : Text → Text
flag_key s = map (λ c. if c == b'-' then b'_' else c) s

unfoldable pub is_switch : Text → Bool
is_switch key =
    any (text_eq key) (codes "no_reasoning" ∷ codes "light_context" ∷ codes "confirmed" ∷ [])

abbrev pub add_arg : Text → Value → Option (List Text × Args) → Option (List Text × Args)
add_arg key v none = none
add_arg key v (some (ps, args)) = some (ps, (key, v) ∷ args)

abbrev pub add_positional : Text → Option (List Text × Args) → Option (List Text × Args)
add_positional a none = none
add_positional a (some (ps, args)) = some (a ∷ ps, args)

-- The positional arguments and the flags, the first flag first; none for a flag that lacks its value.
unfoldable pub parse_flags : List Text → Option (List Text × Args)
parse_flags [] = some ([], [])
parse_flags (a ∷ []) = elim (strip_prefix (codes "--") a) [
  | none ↦ some (a ∷ [], [])
  | some key ↦ if is_switch (flag_key key) then some ([], (flag_key key, set) ∷ []) else none
]
parse_flags (a ∷ b ∷ argv) = elim (strip_prefix (codes "--") a) [
  | none ↦ add_positional a (parse_flags (b ∷ argv))
  | some key ↦ elim (is_switch (flag_key key)) [
    | true ↦ add_arg (flag_key key) set (parse_flags (b ∷ argv))
    | false ↦ add_arg (flag_key key) (given b) (parse_flags argv)
  ]
]

-- A later flag overwrites an earlier one, and the first positional argument is the name.
abbrev pub named : Option (List Text × Args) → Option Args
named none = none
named (some ([], args)) = some args
named (some (p ∷ ps, args)) = some (args ++ ((codes "name", given p) ∷ []))

abbrev pub with_command : Text → Option Args → Option (Text × Args)
with_command cmd none = none
with_command cmd (some args) = some (cmd, args)

-- `_parse_argv`; none is a failure
unfoldable pub parse_argv : List Text → Option (Text × Args)
parse_argv [] = none
parse_argv (cmd ∷ argv) = with_command cmd (named (parse_flags argv))

-- `args.get(key)`: the last entry counts
unfoldable pub get_arg : Text → Args → Option Value
get_arg key [] = none
get_arg key ((k, v) ∷ args) = elim (get_arg key args) [
  | some w ↦ some w
  | none ↦ if text_eq k key then some v else none
]

-- The text of an argument, empty if there is none.
unfoldable pub text_arg : Text → Args → Text
text_arg key args = elim (get_arg key args) [ none ↦ [] | some set ↦ [] | some (given s) ↦ s ]

unfoldable pub is_given : Text → Args → Bool
is_given key args = elim (get_arg key args) [ none ↦ false | some v ↦ true ]

-- A job that `openclaw cron list` answers with, by its name and id, or a value that is no object.
pub data Job : Type 0 where
  job : Option Text → Option Text → Job
  other : Job

-- what `json.loads` makes of the listing
pub data Listing : Type 0 where
  array : List Job → Listing
  object : List Job → Listing

-- `_extract_json`: the first bracket from which on the text is JSON
unfoldable pub extract_json : (Text → Option Listing) → Text → Option Listing
extract_json loads [] = none
extract_json loads (c ∷ s) =
    let rest = extract_json loads s in
    if c == b'[' || c == b'{' then elim (loads (c ∷ s)) [ none ↦ rest | some j ↦ some j ] else rest

-- `_list_jobs`, of the exit code and the output
unfoldable pub list_jobs : (Text → Option Listing) → ℕ × Text → List Job
list_jobs loads (rc, out) =
    if rc == 0
    then elim (extract_json loads out) [
      | none ↦ []
      | some (array jobs) ↦ jobs
      | some (object jobs) ↦ jobs
    ]
    else []

abbrev is_text : Option Text → Text → Bool
is_text none name = false
is_text (some t) name = text_eq t name

abbrev is_job : Job → Text → Bool
is_job (job n i) name = is_text n name || is_text i name
is_job other name = false

abbrev job_id : Job → Option Text
job_id (job n i) = i
job_id other = none

-- `_resolve_id`: whether there is such a job, with its id
unfoldable pub resolve_id : Text → List Job → Option (Option Text)
resolve_id name [] = none
resolve_id name (j ∷ jobs) = if is_job j name then some (job_id j) else resolve_id name jobs

unfoldable pub name_exists : Text → List Job → Bool
name_exists name jobs = elim (resolve_id name jobs) [ none ↦ false | some i ↦ true ]

pub data Kind : Type 0 where
  at every cron : Kind

-- the two sides of the first separator
unfoldable pub split_once : ℕ → Text → Option (Text × Text)
split_once sep [] = none
split_once sep (c ∷ s) =
    if c == sep
    then some ([], s)
    else elim (split_once sep s) [ none ↦ none | some (a, b) ↦ some (c ∷ a, b) ]

-- the two sides of the last separator
unfoldable pub split_last : ℕ → Text → Option (Text × Text)
split_last sep [] = none
split_last sep (c ∷ s) = elim (split_last sep s) [
  | none ↦ if c == sep then some ([], s) else none
  | some (a, b) ↦ some (c ∷ a, b)
]

unfoldable pub kind_of : Text → Option Kind
kind_of k =
    if text_eq k (codes "at")
    then some at
    else if text_eq k (codes "every")
    then some every
    else if text_eq k (codes "cron")
    then some cron
    else none

-- A kind, a value and a time zone, which is empty if there is none.
pub record Schedule : Type 0 where
  pub kind : Kind
  pub value : Text
  pub tz : Text

abbrev with_zone : Option (Text × Text) → Text → Text × Text
with_zone none rest = (strip rest, [])
with_zone (some (value, tz)) rest = (strip value, strip tz)

abbrev of_kind : Kind → Text → Schedule
of_kind cron rest =
    let (value, tz) = with_zone (split_last b'@' rest) rest in
    record { kind = cron; value = value; tz = tz }
of_kind kind rest = record { kind = kind; value = strip rest; tz = [] }

abbrev parsed : (Text → Text) → Option (Text × Text) → Option Schedule
parsed lower none = none
parsed lower (some (kind, rest)) = elim (kind_of (lower (strip kind))) [
  | none ↦ none
  | some k ↦ some (of_kind k rest)
]

-- `_parse_schedule`; none is a failure
unfoldable pub parse_schedule : (Text → Text) → Text → Option Schedule
parse_schedule lower spec = parsed lower (split_once b':' spec)
