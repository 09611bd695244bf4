-- ===== src/Peers/Graph/Private.antt =====
-- The relations of one person touch no edge of another.
use dinomem.Prelude.{
  ℕ, ◌≡◌, refl, ap, ◌∙◌, inl, inr, Bool, true, false, not, ◌&&◌, ◌||◌, List, [], ◌∷◌, ◌++◌, any,
  filter, arith, Bool-cases, if◌then◌else◌,
}
use dinomem.Prelude.Text.{Text, text_eq, text_eq_refl}
use dinomem.Peers.Graph.{
  Edge, Relation, Graph, peer, clean, add_node, has_key, bumped, bump, new_edge, upsert_edge,
  upsert_relation, upsert_relations, upsert_peer_edges, is_blank,
}

-- the edges of the others
abbrev pub others : Text → List Edge → List Edge
others subj es = filter (λ e. not (text_eq e.subject subj)) es

others-bump :
    (subj verb obj : Text) (conf : ℕ) (ts : Text) (es : List Edge)
    → others subj (bump subj verb obj conf ts es) ≡ others subj es
unfolding bump
others-bump subj verb obj conf ts [] = refl
others-bump subj verb obj conf ts (e ∷ es) =
    by_flag (has_key subj verb obj e && not (any (has_key subj verb obj) es)) refl
      (others-bump subj verb obj conf ts es)
  where
    own :
        (has_key subj verb obj e && not (any (has_key subj verb obj) es)) ≡ true
        → text_eq e.subject subj ≡ true
    own q = unfold has_key in ground (arith)

    cons_others :
        (xs ys : List Edge)
        → others subj xs ≡ others subj ys
        → others subj (e ∷ xs) ≡ others subj (e ∷ ys)
    cons_others xs ys h = ap (λ r. if not (text_eq e.subject subj) then e ∷ r else r) h

    by_flag :
        (b : Bool)
        → (has_key subj verb obj e && not (any (has_key subj verb obj) es)) ≡ b
        → others subj (bump subj verb obj conf ts es) ≡ others subj es
        → others subj (if b then bumped conf ts e ∷ es else e ∷ bump subj verb obj conf ts es)
          ≡ others subj (e ∷ es)
    by_flag true q h = unfold bumped in rw (own q) refl
    by_flag false q h = cons_others (bump subj verb obj conf ts es) es h

others-append_own :
    (subj : Text) (e : Edge) (es : List Edge)
    → text_eq e.subject subj ≡ true
    → others subj (es ++ (e ∷ [])) ≡ others subj es
others-append_own subj e [] h = rw h refl
others-append_own subj e (x ∷ es) h =
    ap (λ r. if not (text_eq x.subject subj) then x ∷ r else r) (others-append_own subj e es h)

others-upsert :
    (lower : Text → Text) (subj verb obj : Text) (conf : ℕ) (ts : Text) (es : List Edge)
    → others subj (upsert_edge lower subj verb obj conf ts es) ≡ others subj es
unfolding upsert_edge
others-upsert lower subj verb obj conf ts es = elim (Bool-cases (any (has_key subj verb obj) es)) [
  | inl e ↦ rw e (others-bump subj verb obj conf ts es)
  | inr n ↦
      rw n (others-append_own subj (new_edge lower subj verb obj conf ts) es (text_eq_refl subj))
]

others-relations :
    (lower : Text → Text) (subj ts : Text) (rs : List Relation) (g : Graph)
    → others subj (upsert_relations lower subj ts rs g).edges ≡ others subj g.edges
unfolding upsert_relations
others-relations lower subj ts [] g = refl
others-relations lower subj ts (r ∷ rs) g =
    others-relations lower subj ts rs _ ∙ step (is_blank r.object || is_blank r.verb)
  where
    step :
        (b : Bool)
        → others subj (if b then g else upsert_relation lower subj ts r g).edges
          ≡ others subj g.edges
    step true = refl
    step false =
        unfold upsert_relation in
        others-upsert lower subj (lower (clean r.verb)) (clean r.object) r.confidence ts g.edges

-- The relations of one person change no edge of any other, and leave these in their order.
pub upsert_peer_edges-others :
    (lower : Text → Text) (subj ts : Text) (relations : List Relation) (g : Graph)
    → others subj (upsert_peer_edges lower subj relations ts g).edges ≡ others subj g.edges
unfolding upsert_peer_edges
upsert_peer_edges-others lower subj ts relations g =
    step (any (λ r. not (is_blank r.object || is_blank r.verb)) relations)
  where
    step :
        (b : Bool)
        → others subj
            (if b
              then upsert_relations lower subj ts relations
                  (record g { nodes = add_node (peer subj) g.nodes })
              else g).edges
          ≡ others subj g.edges
    step true =
        others-relations lower subj ts relations (record g { nodes = add_node (peer subj) g.nodes })
    step false = refl
