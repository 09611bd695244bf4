-- ===== src/Authority/Gate/World.antt =====
-- The two gates together.
use dinomem.Prelude.{
  ℕ, ◌≡◌, refl, ◌⊎◌, inl, inr, Bool, true, ◌||◌, not, Option, none, some, [], Bool-cases,
}
use dinomem.Prelude.Text.{Text}
use dinomem.Authority.Owners.{Environment, owner_ids_of}
use dinomem.Authority.Tier.{authority_tier}
use dinomem.Authority.Directive.{classify_scope}
use dinomem.Authority.Gate.{
  Source, tier, is_authoritative, is_personal, gate_peer_fact, gate_world_fact,
}

module _ (is_word : ℕ → Bool) where
  -- The two gates agree: the gate of the facts about the world keeps a fact exactly where neither demotes it,
  -- the one of the facts about a person keeps all, and a fact that is not demoted keeps its text in both.
  pub gates_agree :
      (text : Text) (src : Source)
      → let p = gate_peer_fact is_word text src in
        let g = gate_world_fact is_word text src in
        (p.demoted ≡ g.demoted)
        × (g.keep ≡ not p.demoted)
        × (p.keep ≡ true)
        × (g.out_text ≡ text)
        × ((p.demoted ≡ true) ⊎ (p.out_text ≡ text))
  unfolding gate_peer_fact gate_world_fact
  gates_agree text src =
      elim (Bool-cases (is_authoritative src || is_personal (classify_scope is_word text))) [
        | inl k ↦ rw k (refl, refl, refl, refl, inr refl)
        | inr d ↦ rw d (refl, refl, refl, refl, inl refl)
      ]

  -- Where no source gives an owner's id, no fact of anybody is dropped or demoted.
  pub gate_facts-unconfigured :
      (e : Environment) (id : Option Text) (aid text : Text)
      → owner_ids_of e ≡ []
      → ((gate_world_fact is_word text (tier (authority_tier e id aid))).keep ≡ true)
        × ((gate_peer_fact is_word text (tier (authority_tier e id aid))).out_text ≡ text)
  unfolding authority_tier gate_world_fact gate_peer_fact is_authoritative
  gate_facts-unconfigured e none aid text h = (refl, refl)
  gate_facts-unconfigured e (some id) aid text h = rw h (refl, refl)
