-- ===== src/Authority/Gate.antt =====
-- The gates in front of the memory: `_is_authoritative`, `gate_peer_fact` and `gate_world_fact` of
-- procedures/mem_authority.py, on the source's tier.
pub mod World
use dinomem.Prelude.{ℕ, Bool, true, false, ◌||◌, List, [], ◌∷◌, ◌++◌, if◌then◌else◌}
use dinomem.Prelude.Text.{Text, codes, strip}
use dinomem.Authority.Tier.{Tier, owner, scoped, world}
use dinomem.Authority.Directive.{Scope, personalization, directive, classify_scope}

-- Who a fact comes from: a flag of the older callers, or a tier.
pub data Source : Type 0 where
  flag : Bool → Source
  tier : Tier → Source

unfoldable pub is_authoritative : Source → Bool
is_authoritative (flag b) = b
is_authoritative (tier owner) = true
is_authoritative (tier scoped) = true
is_authoritative (tier world) = false

-- Whether the fact is kept, the text, and whether it is demoted.
pub record Gated : Type 0 where
  pub keep : Bool
  pub out_text : Text
  pub demoted : Bool

abbrev pub is_personal : Scope → Bool
is_personal personalization = true
is_personal directive = false

abbrev pub observed : Text
observed = codes "[observed] this person asked the assistant to: "

-- `gate_peer_fact`
unfoldable pub gate_peer_fact : (ℕ → Bool) → Text → Source → Gated
gate_peer_fact is_word text src =
    if is_authoritative src || is_personal (classify_scope is_word text)
    then record { keep = true; out_text = text; demoted = false }
    else record { keep = true; out_text = observed ++ strip text; demoted = true }

-- `gate_world_fact`
unfoldable pub gate_world_fact : (ℕ → Bool) → Text → Source → Gated
gate_world_fact is_word text src =
    if is_authoritative src || is_personal (classify_scope is_word text)
    then record { keep = true; out_text = text; demoted = false }
    else record { keep = false; out_text = text; demoted = true }
