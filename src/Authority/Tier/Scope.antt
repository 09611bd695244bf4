-- ===== src/Authority/Tier/Scope.antt =====
-- The tiers and `is_owner` agree, and nobody is scoped outside the agents of an entry.
use dinomem.Prelude.{
  ◌≡◌, refl, ◌↔◌, ◌⊎◌, inl, inr, Bool, true, false, Option, none, some, List, [], ◌∷◌, any,
  if◌then◌else◌,
}
use dinomem.Prelude.Text.{Text, text_eq, strip}
use dinomem.Authority.Owners.{Environment, owner_ids_of, is_owner, is_listed}
use dinomem.Authority.Tier.{
  Tier, owner, scoped, world, star, scoped_owner_agents, in_scope, effective_agent, scoped_tier,
  listed_tier, authority_tier,
}

IsOwner : Tier → Type 0
IsOwner owner = Unit
IsOwner scoped = ⊥
IsOwner world = ⊥

IsScoped : Tier → Type 0
IsScoped owner = ⊥
IsScoped scoped = Unit
IsScoped world = ⊥

not_owner : (aid : Text) (agents : List Text) → IsOwner (scoped_tier aid agents) → ⊥
unfolding IsOwner
not_owner aid agents h = by_tests (any (text_eq star) agents) (in_scope aid agents) h
  where
    by_tests : (a b : Bool) → IsOwner (if a then scoped else if b then scoped else world) → ⊥
    by_tests true b h = h
    by_tests false true h = h
    by_tests false false h = h

to_owner : (t : Tier) → t ≡ owner → IsOwner t
unfolding IsOwner
to_owner owner h = tt
to_owner scoped h = absurd (cc h)
to_owner world h = absurd (cc h)

-- A source is of the tier of the owners exactly where `is_owner` holds of it, whatever the agent is.
pub authority_tier-is_owner :
    (e : Environment) (id : Option Text) (aid : Text)
    → (authority_tier e id aid ≡ owner) ↔ (is_owner e id ≡ true)
unfolding authority_tier is_owner
authority_tier-is_owner e none aid = (λ _. refl, λ _. refl)
authority_tier-is_owner e (some id) aid = by_ids (owner_ids_of e)
  where
    by_test :
        (b : Bool) (t : Tier) → (IsOwner t → ⊥) → ((if b then owner else t) ≡ owner) ↔ (b ≡ true)
    by_test true t n = (λ _. refl, λ _. refl)
    by_test false t n = (λ h. absurd (n (to_owner t h)), λ h. absurd (cc h))

    by_ids : (ids : List Text) → (listed_tier e id aid ids ≡ owner) ↔ (is_listed ids id ≡ true)
    by_ids [] = (λ _. refl, λ _. refl)
    by_ids (x ∷ ids) =
        by_test (any (text_eq (strip id)) (x ∷ ids)) _ (
          not_owner (effective_agent e aid)
            (scoped_owner_agents e.python (strip id) e.config_blobs))

-- A scoped source has a platform id that is no owner's, with an entry of trusted ids for all agents or for one
-- that goes with the present agent.
pub authority_tier-scoped :
    (e : Environment) (id aid : Text)
    → authority_tier e (some id) aid ≡ scoped
    → (is_owner e (some id) ≡ false)
      × ((any (text_eq star) (scoped_owner_agents e.python (strip id) e.config_blobs) ≡ true)
          ⊎ (in_scope
                (effective_agent e aid)
                (scoped_owner_agents e.python (strip id) e.config_blobs)
              ≡ true))
unfolding authority_tier is_owner
authority_tier-scoped e id aid h = by_ids (owner_ids_of e) h
  where
    by_tests :
        (o a b : Bool)
        → (if o then owner else if a then scoped else if b then scoped else world) ≡ scoped
        → (o ≡ false) × ((a ≡ true) ⊎ (b ≡ true))
    by_tests true a b h = absurd (cc h)
    by_tests false true b h = (refl, inl refl)
    by_tests false false true h = (refl, inr refl)
    by_tests false false false h = absurd (cc h)

    by_ids :
        (ids : List Text)
        → listed_tier e id aid ids ≡ scoped
        → (is_listed ids id ≡ false)
          × ((any (text_eq star) (scoped_owner_agents e.python (strip id) e.config_blobs) ≡ true)
              ⊎ (in_scope
                    (effective_agent e aid)
                    (scoped_owner_agents e.python (strip id) e.config_blobs)
                  ≡ true))
    by_ids [] h = absurd (cc h)
    by_ids (x ∷ ids) h =
        by_tests (any (text_eq (strip id)) (x ∷ ids))
          (any (text_eq star) (scoped_owner_agents e.python (strip id) e.config_blobs))
          (in_scope (effective_agent e aid)
            (scoped_owner_agents e.python (strip id) e.config_blobs))
          h
