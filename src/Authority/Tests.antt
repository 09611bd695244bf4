-- ===== src/Authority/Tests.antt =====
-- An owner, somebody trusted for one agent, and a rule from the world.
use dinomem.Prelude.{ℕ, ◌≡◌, refl, Bool, true, ◌&&◌, some, [], ◌∷◌, leb}
use dinomem.Prelude.Text.{
  Text, codes, text_eq, contains, starts_with, strip_prefix, strip, lstrip, rstrip, rstrip_cons,
  is_space, cons_first,
}
use dinomem.Authority.Config.{
  Json, string, array, object, no_items, item, no_members, member, Python, parse_id_blob, split_ids,
  find_dinotrust_maps, walk, take_maps, get_key, shown,
}
use dinomem.Authority.Owners.{Environment, FileRead, agent_id, owner_ids_of}
use dinomem.Authority.Tier.{
  authority_tier, scoped_owner_agents, entries_scope, entry_scope, scope_keys, in_scope,
  effective_agent,
}
use dinomem.Authority.Directive.{
  directive, classify_scope, is_directive, directive_patterns, search_from, behind, bind,
  behind_word, behind_spaces, behind_any, one_of, in_row, fold_eq,
}
use dinomem.Authority.Gate.{tier, is_authoritative, gate_world_fact}

abbrev show_string : Json → Text
show_string (string s) = s
show_string _ = []

abbrev configuration : Json
configuration = object (
    member (codes "trustedIds")
      (array (
        item
          (object (
            member (codes "id") (string (codes "7")) (
              member (codes "scopeAgents") (array (item (string (codes "ads")) no_items))
                no_members)))
          no_items))
      no_members)

abbrev python : Python
python = record {
  lower = λ s. s;
  is_digit = λ c. leb b'0' c && leb c b'9';
  loads = λ s. some configuration;
  str = show_string;
}

abbrev environment : Environment
environment = record {
  python = python;
  dinomem_owner_ids = codes "5";
  dinotrust_owner_ids = [];
  dinomem_owner_file = [];
  dinomem_agent_id = codes "ads-bot";
  read_file = λ p. FileRead.missing;
  config_blobs = codes "{}" ∷ [];
}

abbrev is_letter : ℕ → Bool
is_letter c = leb b'a' c && leb c b'z'

abbrev rule : Text
rule = codes "you are now x"

rule_is_directive : classify_scope is_letter rule ≡ directive
unfolding classify_scope is_directive directive_patterns search_from behind bind behind_word
    behind_spaces behind_any one_of in_row fold_eq is_space
rule_is_directive = refl

scoped_keeps :
    (gate_world_fact is_letter rule (tier (authority_tier environment (some (codes "7")) []))).keep
    ≡ true
unfolding gate_world_fact is_authoritative authority_tier owner_ids_of parse_id_blob split_ids
    cons_first scoped_owner_agents entries_scope entry_scope scope_keys in_scope effective_agent
    agent_id find_dinotrust_maps walk take_maps get_key shown contains starts_with strip_prefix
    text_eq strip lstrip rstrip rstrip_cons is_space
scoped_keeps = refl
