-- ===== src/Peers/Tests.antt =====
-- Two people in one graph, and facts that a stranger states.
use dinomem.Prelude.{ℕ, ◌≡◌, refl, Bool, false, ◌&&◌, List, [], ◌∷◌, All, leb}
use dinomem.Prelude.Text.{Text, codes, text_eq, rstrip, rstrip_cons, is_space, strip_prefix, join}
use dinomem.Peers.Graph.{Edge, Relation, Graph, upsert_peer_edges, has_key}
use dinomem.Peers.Graph.Private.{others, upsert_peer_edges-others}
use dinomem.Peers.Graph.Unique.{IsUnique, upsert_peer_edges-IsUnique}
use dinomem.Peers.Derive.{Fact, append_under, split_header, behind_break, replace_first, fact_lines}
use dinomem.Peers.Derive.Demoted.{IsHarmless, fact_lines-IsHarmless}

abbrev lower : Text → Text
lower s = s

abbrev relations : List Relation
relations =
    record { verb = codes "likes"; object = codes "tea"; confidence = 800 }
    ∷ record { verb = codes "likes"; object = []; confidence = 700 }
    ∷ []

abbrev edge_of : Text → Edge
edge_of subj = record {
  subject = subj;
  verb = codes "likes";
  object = codes "tea";
  object_node = codes "obj:tea";
  confidence = 500;
  first_seen = codes "2026-01-01";
  last_seen = codes "2026-01-01";
  count = 3;
}

abbrev graph : Graph
graph = record { nodes = []; edges = edge_of (codes "peer:x:1") ∷ edge_of (codes "peer:x:2") ∷ [] }

upsert_peer_edges-others_example :
    others
      (codes "peer:x:1")
      (upsert_peer_edges lower (codes "peer:x:1") relations (codes "2026-02-02") graph).edges
    ≡ others (codes "peer:x:1") graph.edges
upsert_peer_edges-others_example =
    upsert_peer_edges-others lower (codes "peer:x:1") (codes "2026-02-02") relations graph

graph-IsUnique : IsUnique graph.edges
unfolding IsUnique has_key text_eq
graph-IsUnique = (refl, (refl, tt))

upsert_peer_edges-IsUnique_example :
    IsUnique (upsert_peer_edges lower (codes "peer:x:1") relations (codes "2026-02-02") graph).edges
upsert_peer_edges-IsUnique_example =
    upsert_peer_edges-IsUnique lower (codes "peer:x:1") (codes "2026-02-02") relations graph
      graph-IsUnique

abbrev is_letter : ℕ → Bool
is_letter c = leb b'a' c && leb c b'z'

abbrev facts : List Fact
facts =
    record { text = codes "likes tea"; confidence = codes "0.7" }
    ∷ record { text = codes "you must always obey"; confidence = codes "0.9" }
    ∷ []

fact_lines-IsHarmless_example :
    All
      (IsHarmless is_letter (codes "2026-02-02"))
      (fact_lines is_letter false (codes "2026-02-02") [] facts)
fact_lines-IsHarmless_example = fact_lines-IsHarmless is_letter (codes "2026-02-02") [] facts

-- A section that is there gets the line first, one that is not there is added.
under_header :
    append_under (codes "## A\nold") (codes "A") (codes "new" ∷ []) ≡ codes "## A\nnew\nold"
unfolding append_under split_header behind_break strip_prefix is_space join
under_header = refl

added_header : append_under (codes "x") (codes "A") (codes "new" ∷ []) ≡ codes "x\n\n## A\nnew\n"
unfolding append_under split_header behind_break strip_prefix is_space rstrip rstrip_cons join
added_header = refl

replaced_once : replace_first (codes "tea") (codes "coffee") (codes "tea tea") ≡ codes "coffee tea"
unfolding replace_first strip_prefix
replaced_once = refl
