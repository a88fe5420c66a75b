-- ===== src/Server/Signature.antt =====
-- packages/agent/src/grackle/server.py: the signatures of a static graph. Python's hash of a tuple is a
-- parameter.
use grackle.Base.{ℕ, String, List, Option, Bool, map, length, if◌then◌else◌}
use grackle.Base.Int.{ℤ}
use grackle.Base.Dict.{Keyed, pair_key, number_key}
use grackle.Base.Sort.{sorted}
use grackle.Base.Text.{same_text, text_le}
use grackle.Graph.Entries.{KindedEdge, Cycle}

-- A node: its line as str gives it, and the truth of is_async and decorators in its metadata.
pub record Node : Type 0 where
  pub id : String
  pub path : String
  pub kind : String
  pub name : String
  pub line : String
  pub is_async : Bool
  pub has_decorators : Bool

-- The metadata, as far as the server sets it; none is a key that is missing.
pub record GraphMetadata (P : Type 0) : Type 0 where
  pub hub_score : Option (List (String × ℤ))
  pub cycles : Option (List Cycle)
  pub predicted_heat : Option P

pub record StaticGraph (P : Type 0) : Type 0 where
  pub nodes : List Node
  pub edges : List KindedEdge
  pub metadata : GraphMetadata P

-- A tuple (source, target, kind), and the order of these tuples.
abbrev pub Triple : Type 0
Triple = String × (String × String)

abbrev pub triple_of : KindedEdge → Triple
triple_of edge = (edge.source, (edge.target, edge.kind))

-- Tuples compare at the first place where they differ.
unfoldable pub text_then : {B : Type 0} → (B → B → Bool) → String × B → String × B → Bool
text_then le (s, x) (t, y) = if same_text s t then le x y else text_le s t

unfoldable pub triple_le : Triple → Triple → Bool
unfolding text_then
triple_le a b = text_then (text_then text_le) a b

unfoldable pub edge_multiset : List KindedEdge → List Triple
unfolding triple_le sorted
edge_multiset edges = sorted triple_le (map triple_of edges)

-- What node_part has of a node.
abbrev pub NodePart : Type 0
NodePart = String × String × String × String × String × Bool × Bool

abbrev pub part_of : Node → NodePart
part_of n = (n.id, n.path, n.kind, n.name, n.line, n.is_async, n.has_decorators)

abbrev pub ids_of : List Node → List String
ids_of nodes = map (λ n. n.id) nodes

abbrev pub Signature : Type 0 → Type 0
Signature H = ℕ × (ℕ × H)

module _ {H : Type 0} ⦃d : Keyed H⦄ where
  instance abbrev pub signature_key : Keyed (Signature H)
  signature_key = pair_key ⦃da = number_key⦄ ⦃db = pair_key ⦃da = number_key⦄ ⦃db = d⦄⦄

module _ {P : Type 0} where
  -- What the two signatures hash.
  unfoldable pub topology_of : StaticGraph P → List String × List Triple
  unfolding edge_multiset text_le sorted
  topology_of graph = (sorted text_le (ids_of graph.nodes), edge_multiset graph.edges)

  unfoldable pub features_of : StaticGraph P → List NodePart × List Triple
  unfolding edge_multiset
  features_of graph = (map part_of graph.nodes, edge_multiset graph.edges)

module _ {H P : Type 0} where
  unfoldable pub graph_signature : (List String × List Triple → H) → StaticGraph P → Signature H
  unfolding topology_of
  graph_signature hash_of graph =
      (length graph.nodes, (length graph.edges, hash_of (topology_of graph)))

  unfoldable pub predicted_heat_signature : (List NodePart × List Triple → H) → StaticGraph P → H
  unfolding features_of
  predicted_heat_signature hash_of graph = hash_of (features_of graph)
