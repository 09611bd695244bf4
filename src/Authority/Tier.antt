-- ===== src/Authority/Tier.antt =====
-- The three tiers: `_scoped_owner_agents` and `authority_tier` of procedures/mem_authority.py.
pub mod Scope
use dinomem.Prelude.{
  Bool, true, false, ◌&&◌, ◌||◌, not, Option, none, some, List, [], ◌∷◌, ◌++◌, any, filter, map,
  if◌then◌else◌,
}
use dinomem.Prelude.Text.{Text, codes, text_eq, strip, contains}
use dinomem.Authority.Config.{
  Json, null, boolean, number, string, array, object, Items, no_items, item, Python, get_key, shown,
  find_dinotrust_maps,
}
use dinomem.Authority.Owners.{Environment, agent_id, owner_ids_of}

pub data Tier : Type 0 where
  owner scoped world : Tier

abbrev is_nonempty : Text → Bool
is_nonempty [] = false
is_nonempty (c ∷ s) = true

abbrev pub star : Text
star = codes "*"

-- `{str(k).strip().lower() for k in sa if str(k).strip()}`, of what `str` makes of the keys
unfoldable pub scope_keys : Python → List Text → List Text
scope_keys p ks = map p.lower (filter is_nonempty (map strip ks))

abbrev pub scope_of : Python → Option Json → List Text
scope_of p (some (array (item v vs))) = scope_keys p (shown p (item v vs))
scope_of p _ = star ∷ []

-- `str(t.get("id", "")).strip()`
abbrev pub id_of : Python → Option Json → Text
id_of p none = []
id_of p (some v) = strip (p.str v)

-- what one entry of `trustedIds` adds
unfoldable pub entry_scope : Python → Text → Json → List Text
entry_scope p pid (object ms) =
    if text_eq (id_of p (get_key (codes "id") ms)) pid
    then scope_of p (get_key (codes "scopeAgents") ms)
    else []
entry_scope p pid _ = []

unfoldable pub entries_scope : Python → Text → Items → List Text
entries_scope p pid no_items = []
entries_scope p pid (item v vs) = entry_scope p pid v ++ entries_scope p pid vs

abbrev pub doc_scope : Python → Text → Option Json → List Text
doc_scope p pid none = []
doc_scope p pid (some doc) = entries_scope p pid (find_dinotrust_maps doc).trusted_ids

abbrev or_scope : List Text → List Text → List Text
or_scope [] later = later
or_scope (x ∷ xs) later = x ∷ xs

-- `_scoped_owner_agents`, over the texts of the configuration files
unfoldable pub scoped_owner_agents : Python → Text → List Text → List Text
scoped_owner_agents p pid [] = []
scoped_owner_agents p pid (blob ∷ blobs) =
    or_scope (doc_scope p pid (p.loads blob)) (scoped_owner_agents p pid blobs)

-- `any(k and (k in aid or aid in k) for k in scoped)`, with the test of `aid`
unfoldable pub in_scope : Text → List Text → Bool
in_scope aid agents =
    is_nonempty aid && any (λ k. is_nonempty k && (contains k aid || contains aid k)) agents

-- `(agent_id or os.environ.get(...)).strip().lower()`
unfoldable pub effective_agent : Environment → Text → Text
effective_agent e [] = agent_id e
effective_agent e (c ∷ s) = e.python.lower (strip (c ∷ s))

abbrev pub scoped_tier : Text → List Text → Tier
scoped_tier aid agents =
    if any (text_eq star) agents then scoped else if in_scope aid agents then scoped else world

-- the part of `authority_tier` behind the test on the ids
abbrev pub listed_tier : Environment → Text → Text → List Text → Tier
listed_tier e id aid [] = owner
listed_tier e id aid (x ∷ ids) =
    if any (text_eq (strip id)) (x ∷ ids)
    then owner
    else scoped_tier (effective_agent e aid)
        (scoped_owner_agents e.python (strip id) e.config_blobs)

-- `authority_tier`
unfoldable pub authority_tier : Environment → Option Text → Text → Tier
authority_tier e none aid = owner
authority_tier e (some id) aid = listed_tier e id aid (owner_ids_of e)
