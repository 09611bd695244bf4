-- ===== src/Authority/Config.antt =====
-- The configuration openclaw.json as procedures/mem_authority.py reads it: `_parse_id_blob`,
-- `_find_dinotrust_maps` and `_ids_from_dinotrust_config`. A set of ids is a list, of which only its
-- members and whether it is empty matter.
pub mod Walk
use dinomem.Prelude.{
  ℕ, Bool, true, false, ◌&&◌, ◌||◌, not, Option, none, some, List, [], ◌∷◌, ◌++◌, ◌==◌, leb, any,
  all, filter, if◌then◌else◌,
}
use dinomem.Prelude.Text.{
  Text, codes, text_eq, is_space, lstrip, strip_prefix, cons_first, contains, join,
}

-- What `json.loads` returns. The keys of an object are different.
mutual
  pub data Json : Type 0 where
    null : Json
    boolean : Bool → Json
    number string : Text → Json
    array : Items → Json
    object : Members → Json

  pub data Items : Type 0 where
    no_items : Items
    item : Json → Items → Items

  pub data Members : Type 0 where
    no_members : Members
    member : Text → Json → Members → Members

-- `str.lower`, `str.isdigit` of a character, `json.loads`, and `str` of a value.
pub record Python : Type 0 where
  pub lower : Text → Text
  pub is_digit : ℕ → Bool
  pub loads : Text → Option Json
  pub str : Json → Text

abbrev is_nonempty {ℓ} : {A : Type ℓ} → List A → Bool
is_nonempty [] = false
is_nonempty (x ∷ xs) = true

-- `re.split(r"[,\s]+", raw)` up to empty parts
unfoldable pub split_ids : Text → List Text
split_ids [] = [] ∷ []
split_ids (c ∷ s) =
    let rest = split_ids s in if c == b',' || is_space c then [] ∷ rest else cons_first c rest

-- `_parse_id_blob`
unfoldable pub parse_id_blob : Text → List Text
parse_id_blob raw = filter is_nonempty (split_ids raw)

-- `x.isdigit()`
unfoldable pub is_digits : Python → Text → Bool
is_digits e x = is_nonempty x && all e.is_digit x

-- The three maps that are looked for.
pub record Maps : Type 0 where
  pub agent_owners : Members
  pub owner_ids : Items
  pub trusted_ids : Items

abbrev pub no_maps : Maps
no_maps = record { agent_owners = no_members; owner_ids = no_items; trusted_ids = no_items }

-- `o.get(key)`
unfoldable pub get_key : Text → Members → Option Json
get_key key no_members = none
get_key key (member k v ms) = let rest = get_key key ms in if text_eq k key then some v else rest

abbrev pub or_members : Members → Option Json → Members
or_members no_members (some (object ms)) = ms
or_members no_members _ = no_members
or_members (member k v ms) found = member k v ms

abbrev pub or_items : Items → Option Json → Items
or_items no_items (some (array vs)) = vs
or_items no_items _ = no_items
or_items (item v vs) found = item v vs

-- the three tests of `walk` on an object
unfoldable pub take_maps : Members → Maps → Maps
take_maps ms st = record {
  agent_owners = or_members st.agent_owners (get_key (codes "agentOwners") ms);
  owner_ids = or_items st.owner_ids (get_key (codes "ownerIds") ms);
  trusted_ids = or_items st.trusted_ids (get_key (codes "trustedIds") ms);
}

-- `walk`, on a value, on the values of an array, and on those of an object
unfoldable mutual
  pub walk : Json → Maps → Maps
  walk null st = st
  walk (boolean b) st = st
  walk (number s) st = st
  walk (string s) st = st
  walk (array vs) st = walk_items vs st
  walk (object ms) st = walk_members ms (take_maps ms st)

  pub walk_items : Items → Maps → Maps
  walk_items no_items st = st
  walk_items (item v vs) st = walk_items vs (walk v st)

  pub walk_members : Members → Maps → Maps
  walk_members no_members st = st
  walk_members (member k v ms) st = walk_members ms (walk v st)

-- `_find_dinotrust_maps`
unfoldable pub find_dinotrust_maps : Json → Maps
find_dinotrust_maps doc = walk doc no_maps

unfoldable pub shown : Python → Items → List Text
shown e no_items = []
shown e (item v vs) = e.str v ∷ shown e vs

-- `_parse_id_blob(" ".join(map(str, v)))`
unfoldable pub ids_of_items : Python → Items → List Text
ids_of_items e vs = parse_id_blob (join (codes " ") (shown e vs))

abbrev ids_of_value : Python → Json → List Text
ids_of_value e (array vs) = ids_of_items e vs
ids_of_value e _ = []

-- The owners of the agents whose key passes a test.
unfoldable pub ids_of_agents : Python → (Text → Bool) → Members → List Text
ids_of_agents e p no_members = []
ids_of_agents e p (member k v ms) =
    let rest = ids_of_agents e p ms in if p k then ids_of_value e v ++ rest else rest

abbrev pub or_ids : List Text → List Text → List Text
or_ids [] ids = ids
or_ids (x ∷ xs) ids = x ∷ xs

-- The ids of a parsed configuration, for the agent `aid`.
unfoldable pub structured_ids : Python → Text → Maps → List Text
structured_ids e aid maps =
    let of_agent =
      if is_nonempty aid
      then ids_of_agents e (λ k. is_nonempty k && contains aid (e.lower k)) maps.agent_owners
      else [] in
    filter (is_digits e) (
      or_ids of_agent (ids_of_agents e (λ k. true) maps.agent_owners)
      ++ ids_of_items e maps.owner_ids)

-- `[^\]]*\]`, with the bracket
unfoldable pub to_bracket : Text → Option Text
to_bracket [] = none
to_bracket (c ∷ s) =
    let rest = to_bracket s in
    if c == b']'
    then some (c ∷ [])
    else elim rest as (λ _. Option Text) [ none ↦ none | some r ↦ some (c ∷ r) ]

abbrev is_ascii_digit : ℕ → Bool
is_ascii_digit c = leb b'0' c && leb c b'9'

-- `[0-9,\s\\"']*`
unfoldable pub id_run : Text → Text
id_run [] = []
id_run (c ∷ s) =
    let rest = id_run s in
    if is_ascii_digit c || c == b',' || is_space c || c == 92 || c == 34 || c == 39
    then c ∷ rest
    else []

-- the group of the pattern, in front of a text
unfoldable pub id_group : Text → Option Text
id_group [] = none
id_group (c ∷ s) =
    if c == b'['
    then elim (to_bracket s) as (λ _. Option Text) [ none ↦ none | some r ↦ some (c ∷ r) ]
    else if is_ascii_digit c
    then some (c ∷ id_run s)
    else none

abbrev group_behind : Option Text → Option Text
group_behind none = none
group_behind (some s) = id_group (lstrip s)

abbrev first_group : Option Text → Option Text → Option Text
first_group none g = g
first_group (some h) g = some h

-- `re.search(r"owner_ids:\s*(...)", blob)`, by its group
unfoldable pub find_owner_line : Text → Option Text
find_owner_line [] = none
find_owner_line (c ∷ s) =
    first_group (group_behind (strip_prefix (codes "owner_ids:") (c ∷ s))) (find_owner_line s)

-- brackets, quotes and backslashes become spaces
unfoldable pub blank_marks : Text → Text
blank_marks [] = []
blank_marks (c ∷ s) =
    (if c == b'[' || c == b']' || c == 34 || c == 39 || c == 92 then b' ' else c) ∷ blank_marks s

abbrev pub ids_of_line : Python → Option Text → List Text
ids_of_line e none = []
ids_of_line e (some group) = filter (is_digits e) (parse_id_blob (blank_marks group))

abbrev pub ids_of_doc : Python → Text → Option Json → List Text
ids_of_doc e aid none = []
ids_of_doc e aid (some doc) = structured_ids e aid (find_dinotrust_maps doc)

-- the ids of one file
unfoldable pub ids_of_blob : Python → Text → Text → List Text
ids_of_blob e aid blob =
    or_ids (ids_of_doc e aid (e.loads blob)) (ids_of_line e (find_owner_line blob))

-- `_ids_from_dinotrust_config`, from the texts of `_iter_config_blobs`
unfoldable pub ids_from_dinotrust_config : Python → Text → List Text → List Text
ids_from_dinotrust_config e aid [] = []
ids_from_dinotrust_config e aid (blob ∷ blobs) =
    or_ids (ids_of_blob e aid blob) (ids_from_dinotrust_config e aid blobs)
