-- ===== src/Graph/Tests.antt =====
-- packages/agent/src/grackle/graph_analysis.py: a concrete graph, and the theorem on it.
use grackle.Base.{map, ℕ, ◌<◌, Option, some, length, ◌≡◌, refl, String, List, [], ◌∷◌, All, is_some}
use native.Mathlib.Decide.{ℕ_discrete}
use grackle.Base.Int.{pos, negsuc}
use grackle.Base.Dict.{get}
use grackle.Base.Text.{string_key, String_discrete, text_le}
use grackle.Base.Top.{Top}
use grackle.Graph.{Edge, ranked_before, compute_hub_score}
use grackle.Base.Result.{Result, ok}
use grackle.Graph.Cycles.{Tarjan, components}
use grackle.Graph.Entries.{compute_cycles}
use grackle.Graph.Ends.{occurs_in}
use grackle.Graph.Searched.{components_ends}
use mathlib.Core.List.Perm
use grackle.Graph.Shuffled.{compute_hub_score-Perm}
use grackle.Graph.Scores.{hub_score, all_scores, scored, compute_hub_score-Top}

abbrev nodes : List String
nodes = "a" ∷ "b" ∷ []

-- The target `c` is not a node.
abbrev edges : List Edge
edges = ("a", "b") ∷ ("b", "a") ∷ ("a", "b") ∷ ("a", "c") ∷ []

hubs : compute_hub_score nodes edges ≡ ("b", pos 1) ∷ ("c", pos 1) ∷ ("a", negsuc 1) ∷ []
unfolding compute_hub_score String_discrete text_le
hubs = refl

compute_hub_score-Top_example :
    All (λ e. e.1 ≡ hub_score edges e.0) (compute_hub_score nodes edges)
    × Top ranked_before 50 (all_scores nodes edges) (compute_hub_score nodes edges)
    × ((k : String) → is_some (get k (all_scores nodes edges)) ≡ scored k nodes edges)
compute_hub_score-Top_example = compute_hub_score-Top nodes edges

components_ends_example :
    (t : Tarjan) × (components nodes edges ≡ some (ok t))
    × ((v : ℕ) → v < length nodes → occurs_in v t.sccs ≡ 1)
components_ends_example = components_ends nodes edges

-- The components of a graph with a cycle of two nodes and a node beside it.
unfoldable found_components : Option (Result Tarjan) → List (List ℕ)
found_components (some (ok t)) = t.sccs
found_components _ = []

three_nodes :
    found_components
      (components ("a" ∷ "b" ∷ "c" ∷ []) (("c", "a") ∷ ("a", "b") ∷ ("b", "a") ∷ ("c", "c") ∷ []))
    ≡ (1 ∷ 0 ∷ []) ∷ (2 ∷ []) ∷ []
unfolding found_components components String_discrete
three_nodes = refl

-- Two cycles, the larger one first, each with the kinds of its edges.
cycles :
    map {B = String × List String}
      (λ c. (c.id, c.edge_kinds))
      (compute_cycles ("c" ∷ "b" ∷ "a" ∷ []) (
        record { source = "c"; target = "c"; kind = "calls" }
        ∷ record { source = "b"; target = "a"; kind = "imports" }
        ∷ record { source = "a"; target = "b"; kind = "calls" }
        ∷ record { source = "a"; target = "c"; kind = "reads" }
        ∷ []))
    ≡ ("a|b", "calls" ∷ "imports" ∷ []) ∷ ("c", "calls" ∷ []) ∷ []
unfolding compute_cycles String_discrete text_le components ℕ_discrete
cycles = refl

compute_hub_score-Perm_example :
    compute_hub_score ("a" ∷ "b" ∷ []) (("a", "b") ∷ ("b", "c") ∷ [])
    ≡ compute_hub_score ("b" ∷ "a" ∷ []) (("b", "c") ∷ ("a", "b") ∷ [])
compute_hub_score-Perm_example =
    compute_hub_score-Perm ("a" ∷ "b" ∷ []) ("b" ∷ "a" ∷ []) (("a", "b") ∷ ("b", "c") ∷ [])
      (("b", "c") ∷ ("a", "b") ∷ []) (Perm.swap "b" "a" []) (Perm.swap ("b", "c") ("a", "b") [])
