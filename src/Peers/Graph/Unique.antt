-- ===== src/Peers/Graph/Unique.antt =====
-- The graph has one edge for a subject, a verb and an object.
use dinomem.Prelude.{
  ℕ, ◌≡◌, refl, sym, ap, ◌∙◌, inl, inr, Bool, true, false, not, ◌&&◌, ◌||◌, List, [], ◌∷◌, ◌++◌,
  any, arith, Bool-cases, if◌then◌else◌,
}
use dinomem.Prelude.Text.{Text, text_eq, text_eq_iff}
use dinomem.Peers.Graph.{
  Edge, Relation, Graph, peer, clean, add_node, has_key, bumped, bump, new_edge, upsert_edge,
  upsert_relation, upsert_relations, upsert_peer_edges, is_blank,
}

abbrev same_key : Edge → Edge → Bool
same_key d e = has_key d.subject d.verb d.object e

-- No edge has the key of a later one.
unfoldable pub IsUnique : List Edge → Type 0
IsUnique [] = Unit
IsUnique (e ∷ es) = (any (same_key e) es ≡ false) × IsUnique es

any-bump :
    (s v o subj verb obj : Text) (conf : ℕ) (ts : Text) (es : List Edge)
    → any (has_key s v o) (bump subj verb obj conf ts es) ≡ any (has_key s v o) es
unfolding bump
any-bump s v o subj verb obj conf ts [] = refl
any-bump s v o subj verb obj conf ts (e ∷ es) =
    step (has_key subj verb obj e && not (any (has_key subj verb obj) es))
      (any-bump s v o subj verb obj conf ts es)
  where
    step :
        (b : Bool)
        → any (has_key s v o) (bump subj verb obj conf ts es) ≡ any (has_key s v o) es
        → any
            (has_key s v o)
            (if b then bumped conf ts e ∷ es else e ∷ bump subj verb obj conf ts es)
          ≡ any (has_key s v o) (e ∷ es)
    step true h = unfold bumped has_key in refl
    step false h = ap (λ r. has_key s v o e || r) h

bump-IsUnique :
    (subj verb obj : Text) (conf : ℕ) (ts : Text) (es : List Edge)
    → IsUnique es
    → IsUnique (bump subj verb obj conf ts es)
unfolding bump IsUnique
bump-IsUnique subj verb obj conf ts [] u = u
bump-IsUnique subj verb obj conf ts (e ∷ es) (h, u) =
    step (has_key subj verb obj e && not (any (has_key subj verb obj) es))
      (bump-IsUnique subj verb obj conf ts es u)
  where
    step :
        (b : Bool)
        → IsUnique (bump subj verb obj conf ts es)
        → IsUnique (if b then bumped conf ts e ∷ es else e ∷ bump subj verb obj conf ts es)
    step true _ = unfold bumped in (h, u)
    step false k = (any-bump e.subject e.verb e.object subj verb obj conf ts es ∙ h, k)

any-append :
    (p : Edge → Bool) (n : Edge) (es : List Edge) → any p (es ++ (n ∷ [])) ≡ any p es || p n
any-append p n [] = or_false (p n)
  where
    or_false : (b : Bool) → b || false ≡ b
    or_false true = refl
    or_false false = refl
any-append p n (e ∷ es) = ap (λ r. p e || r) (any-append p n es) ∙ assoc (p e) (any p es) (p n)
  where
    assoc : (a b c : Bool) → a || (b || c) ≡ (a || b) || c
    assoc true b c = refl
    assoc false b c = refl

swapped : (s t : Text) → text_eq s t ≡ true → text_eq t s ≡ true
swapped s t h = ((text_eq_iff t s).1) (sym ((text_eq_iff s t).0 h))

text_eq_sym : (s t : Text) → text_eq s t ≡ text_eq t s
text_eq_sym s t = elim (Bool-cases (text_eq s t)) [
  | inl e ↦ e ∙ sym (swapped s t e)
  | inr n ↦ elim (Bool-cases (text_eq t s)) [ inl e ↦ swapped t s e ∙ sym e | inr m ↦ n ∙ sym m ]
]

same_key_sym : (d e : Edge) → same_key d e ≡ same_key e d
unfolding has_key
same_key_sym d e =
    rw (text_eq_sym d.subject e.subject, text_eq_sym d.verb e.verb, text_eq_sym d.object e.object)
      refl

append-IsUnique :
    (n : Edge) (es : List Edge)
    → IsUnique es
    → any (same_key n) es ≡ false
    → IsUnique (es ++ (n ∷ []))
unfolding IsUnique
append-IsUnique n [] u h = (refl, tt)
append-IsUnique n (e ∷ es) (k, u) h =
    (any-append (same_key e) n es ∙ joined k same_key_off, append-IsUnique n es u later_off)
  where
    same_key_off : same_key e n ≡ false
    same_key_off = same_key_sym e n ∙ ground (arith)

    later_off : any (same_key n) es ≡ false
    later_off = ground (arith)

    joined : {a b : Bool} → a ≡ false → b ≡ false → a || b ≡ false
    joined p q = ground (arith)

upsert_edge-IsUnique :
    (lower : Text → Text) (subj verb obj : Text) (conf : ℕ) (ts : Text) (es : List Edge)
    → IsUnique es
    → IsUnique (upsert_edge lower subj verb obj conf ts es)
unfolding upsert_edge
upsert_edge-IsUnique lower subj verb obj conf ts es u =
    elim (Bool-cases (any (has_key subj verb obj) es)) [
      | inl e ↦ rw e (bump-IsUnique subj verb obj conf ts es u)
      | inr n ↦ rw n (append-IsUnique (new_edge lower subj verb obj conf ts) es u n)
    ]

upsert_relations-IsUnique :
    (lower : Text → Text) (subj ts : Text) (rs : List Relation) (g : Graph)
    → IsUnique g.edges
    → IsUnique (upsert_relations lower subj ts rs g).edges
unfolding upsert_relations
upsert_relations-IsUnique lower subj ts [] g u = u
upsert_relations-IsUnique lower subj ts (r ∷ rs) g u =
    upsert_relations-IsUnique lower subj ts rs _ (step (is_blank r.object || is_blank r.verb))
  where
    step : (b : Bool) → IsUnique (if b then g else upsert_relation lower subj ts r g).edges
    step true = u
    step false =
        unfold upsert_relation in
        upsert_edge-IsUnique lower subj (lower (clean r.verb)) (clean r.object) r.confidence ts
          g.edges u

-- If no two edges of the graph have the same subject, verb and object, no two have afterwards.
pub upsert_peer_edges-IsUnique :
    (lower : Text → Text) (subj ts : Text) (relations : List Relation) (g : Graph)
    → IsUnique g.edges
    → IsUnique (upsert_peer_edges lower subj relations ts g).edges
unfolding upsert_peer_edges
upsert_peer_edges-IsUnique lower subj ts relations g u =
    step (any (λ r. not (is_blank r.object || is_blank r.verb)) relations)
  where
    step :
        (b : Bool)
        → IsUnique
            (if b
              then upsert_relations lower subj ts relations
                  (record g { nodes = add_node (peer subj) g.nodes })
              else g).edges
    step true =
        upsert_relations-IsUnique lower subj ts relations
          (record g { nodes = add_node (peer subj) g.nodes }) u
    step false = u
