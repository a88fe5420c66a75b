-- ===== src/Server/Rebuilds.antt =====
-- packages/agent/src/grackle/server.py: concrete graphs that are pushed, and the theorems on them.
use grackle.Base.Dict.{pair_key, list_key}
use grackle.Base.{
  ℕ, ◌≤◌, String, List, [], ◌∷◌, Option, none, some, true, false, length, ◌≡◌, refl, ap, sym, ◌∙◌,
  ◌⊎◌, inl, inr, ◌↔◌,
}
use grackle.Base.Text.{String_discrete, text_le, string_key}
use grackle.Graph.Entries.{KindedEdge}
use grackle.Server.Signature.{
  Node, Triple, NodePart, StaticGraph, features_of, graph_signature, triple_le,
}
use grackle.Server.Topology.{SameTopology, graph_signature_iff}
use grackle.Server.Push.{
  ModelKey, Caches, no_caches, caches_after, cache_bounded, build_static_graph, meta_cache_max,
  predicted_cache_max,
}
use grackle.Server.Pushed.{IsPushed, build_static_graph-IsPushed}

abbrev node : String → Node
node id = record {
  id = id;
  path = "m.py";
  kind = "function";
  name = id;
  line = "1";
  is_async = false;
  has_decorators = false;
}

abbrev calls_of : String → String → KindedEdge
calls_of source target = record { source = source; target = target; kind = "calls" }

abbrev graph_of : List KindedEdge → StaticGraph ℕ
graph_of edges = record {
  nodes = node "f" ∷ node "g" ∷ [];
  edges = edges;
  metadata = record { hub_score = none; cycles = none; predicted_heat = none };
}

-- The same graph with its edges in two orders.
abbrev before : StaticGraph ℕ
before = graph_of (calls_of "f" "g" ∷ calls_of "g" "f" ∷ calls_of "f" "g" ∷ [])

abbrev after : StaticGraph ℕ
after = graph_of (calls_of "f" "g" ∷ calls_of "f" "g" ∷ calls_of "g" "f" ∷ [])

-- A hash that tells all topologies apart, and one that does not tell the features of these two graphs apart.
abbrev Hash : Type 0
Hash = List String × List Triple

abbrev same_hash : Hash → Hash
same_hash x = x

abbrev one_hash : List NodePart × List Triple → Hash
one_hash x = ([], [])

abbrev TwoGraphs : StaticGraph ℕ → Type 0
TwoGraphs g = (g ≡ before) ⊎ (g ≡ after)

one_features : (g : StaticGraph ℕ) → TwoGraphs g → features_of g ≡ features_of before
unfolding features_of triple_le text_le
one_features g (inl e) = ap features_of e
one_features g (inr e) = ap features_of e ∙ refl

graph_signature_iff_example :
    (graph_signature same_hash before ≡ graph_signature same_hash after) ↔ SameTopology before after
graph_signature_iff_example = graph_signature_iff same_hash before after (λ e. e)

-- A prediction that counts the edges.
abbrev predict : StaticGraph ℕ → ModelKey → Option ℕ
predict g key = some (length g.edges)

build_static_graph-IsPushed_example :
    (g' : StaticGraph ℕ) × (c' : Caches Hash ℕ) × (build_static_graph same_hash one_hash predict
        (some after)
        (some (7, 9))
        true
        (caches_after same_hash one_hash predict ((some before, some (7, 9), true) ∷ []) no_caches)
      ≡ (some g', c'))
    × IsPushed predict (some (7, 9)) after g'
    × (length c'.meta_cache ≤ meta_cache_max)
    × (length c'.cache ≤ predicted_cache_max)
build_static_graph-IsPushed_example =
    build_static_graph-IsPushed same_hash one_hash predict TwoGraphs (λ g h i j e. e)
      (λ g h i j e. one_features g i ∙ sym (one_features h j))
      ((some before, some (7, 9), true) ∷ []) (some (7, 9)) true after (inl refl, tt) (inr refl)

-- The oldest entry makes room.
oldest_out :
    cache_bounded {K = String} {V = ℕ} 2 "c" 3 (("a", 1) ∷ ("b", 2) ∷ []) ≡ ("b", 2) ∷ ("c", 3) ∷ []
unfolding cache_bounded String_discrete
oldest_out = refl
