-- ===== src/Peers/Graph.antt =====
-- The graph of relations: `upsert_peer_edges` of procedures/extract_user.py, on the graph that is read and
-- without the lock. A confidence is in thousandths, 700 for one that is no number; `str.lower` is a parameter.
pub mod Private
pub mod Unique
use dinomem.Prelude.{
  ℕ, suc, ◌+◌, max, Bool, true, false, not, ◌&&◌, ◌||◌, List, [], ◌∷◌, ◌++◌, any, if◌then◌else◌,
}
use dinomem.Prelude.Text.{Text, codes, text_eq, strip}
use dinomem.Session.Clean.{sanitize_text}

pub record Edge : Type 0 where
  pub subject : Text
  pub verb : Text
  pub object : Text
  pub object_node : Text
  pub confidence : ℕ
  pub first_seen : Text
  pub last_seen : Text
  pub count : ℕ

-- A relation that the model derives: verb, object and confidence.
pub record Relation : Type 0 where
  pub verb : Text
  pub object : Text
  pub confidence : ℕ

pub data Node : Type 0 where
  peer : Text → Node
  thing : Text → Text → Node

pub record Graph : Type 0 where
  pub nodes : List Node
  pub edges : List Edge

abbrev pub clean : Text → Text
clean s = strip (sanitize_text s)

abbrev pub is_blank : Text → Bool
is_blank s = text_eq (clean s) []

abbrev pub node_name : Node → Text
node_name (peer subj) = subj
node_name (thing name label) = name

-- `g["nodes"].setdefault`
unfoldable pub add_node : Node → List Node → List Node
add_node n nodes =
    if any (λ m. text_eq (node_name m) (node_name n)) nodes then nodes else nodes ++ (n ∷ [])

-- the edge has the key
unfoldable pub has_key : Text → Text → Text → Edge → Bool
has_key subj verb obj e = text_eq e.subject subj && (text_eq e.verb verb && text_eq e.object obj)

unfoldable pub bumped : ℕ → Text → Edge → Edge
bumped conf ts e = record e {
  confidence = max e.confidence conf;
  last_seen = ts;
  count = e.count + 1;
}

-- The edge that the index has for a key, which is the last one, is seen again.
unfoldable pub bump : Text → Text → Text → ℕ → Text → List Edge → List Edge
bump subj verb obj conf ts [] = []
bump subj verb obj conf ts (e ∷ es) =
    let rest = bump subj verb obj conf ts es in
    if has_key subj verb obj e && not (any (has_key subj verb obj) es)
    then bumped conf ts e ∷ es
    else e ∷ rest

abbrev pub object_name : (Text → Text) → Text → Text
object_name lower obj = codes "obj:" ++ lower obj

abbrev pub new_edge : (Text → Text) → Text → Text → Text → ℕ → Text → Edge
new_edge lower subj verb obj conf ts = record {
  subject = subj;
  verb = verb;
  object = obj;
  object_node = object_name lower obj;
  confidence = conf;
  first_seen = ts;
  last_seen = ts;
  count = 1;
}

unfoldable pub upsert_edge : (Text → Text) → Text → Text → Text → ℕ → Text → List Edge → List Edge
upsert_edge lower subj verb obj conf ts edges =
    if any (has_key subj verb obj) edges
    then bump subj verb obj conf ts edges
    else edges ++ (new_edge lower subj verb obj conf ts ∷ [])

-- one round of the loop
unfoldable pub upsert_relation : (Text → Text) → Text → Text → Relation → Graph → Graph
upsert_relation lower subj ts r g =
    let verb = lower (clean r.verb) in
    let obj = clean r.object in
    record {
      nodes = add_node (thing (object_name lower obj) obj) g.nodes;
      edges = upsert_edge lower subj verb obj r.confidence ts g.edges;
    }

-- The loop over the relations that have a verb and an object.
unfoldable pub upsert_relations : (Text → Text) → Text → Text → List Relation → Graph → Graph
upsert_relations lower subj ts [] g = g
upsert_relations lower subj ts (r ∷ rs) g =
    upsert_relations lower subj ts rs
      (if is_blank r.object || is_blank r.verb then g else upsert_relation lower subj ts r g)

-- `upsert_peer_edges`
unfoldable pub upsert_peer_edges : (Text → Text) → Text → List Relation → Text → Graph → Graph
upsert_peer_edges lower subj relations ts g =
    if any (λ r. not (is_blank r.object || is_blank r.verb)) relations
    then upsert_relations lower subj ts relations
        (record g { nodes = add_node (peer subj) g.nodes })
    else g
