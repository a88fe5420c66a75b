-- ===== src/Graph/Entries.antt =====
-- packages/agent/src/grackle/graph_analysis.py: the entries that _compute_cycles makes of the components.
use grackle.Base.{
  ℕ, ◌==◌, ltb, ◌||◌, String, List, [], ◌∷◌, Option, none, some, Bool, true, false, map, take,
  length, get_elem?, if◌then◌else◌,
}
use grackle.Base.Dict.{get, put, get_default, pair_key, number_key}
use grackle.Base.Sort.{sorted}
use grackle.Base.Text.{text_le, string_key, same_text, append}
use grackle.Base.Result.{ok, raise}
use grackle.Graph.{Edge}
use grackle.Graph.Cycles.{Adjacency, update, number_nodes, adjacency, components}

pub record KindedEdge : Type 0 where
  pub source : String
  pub target : String
  pub kind : String

abbrev pub ends_of : KindedEdge → Edge
ends_of edge = (edge.source, edge.target)

-- `kinds.add(kind)`, in the order in which they are added.
unfoldable pub add_kind : String → List String → List String
add_kind kind [] = kind ∷ []
add_kind kind (k ∷ kinds) =
    let rest = add_kind kind kinds in if same_text k kind then k ∷ kinds else k ∷ rest

-- `kinds.update(more)`
unfoldable pub add_kinds : List String → List String → List String
unfolding add_kind
add_kinds [] kinds = kinds
add_kinds (kind ∷ more) kinds = add_kinds more (add_kind kind kinds)

abbrev pub EdgeKinds : Type 0
EdgeKinds = List ((ℕ × ℕ) × List String)

-- The loop over the edges: self_loop_nodes and edge_kinds.
unfoldable pub note_loop : Option ℕ → Option ℕ → (ℕ → Bool) → ℕ → Bool
unfolding update
note_loop (some src) (some tgt) loops = if src == tgt then update src true loops else loops
note_loop _ _ loops = loops

unfoldable pub self_loops : List (String × ℕ) → List Edge → (ℕ → Bool) → ℕ → Bool
unfolding note_loop get
self_loops ids [] loops = loops
self_loops ids ((src, tgt) ∷ edges) loops =
    self_loops ids edges (note_loop (get src ids) (get tgt ids) loops)

unfoldable pub note_kind : Option ℕ → Option ℕ → String → EdgeKinds → EdgeKinds
unfolding put get add_kind
note_kind (some src) (some tgt) kind kinds =
    put (src, tgt) (add_kind kind (get_default (src, tgt) [] kinds)) kinds
note_kind _ _ kind kinds = kinds

unfoldable pub kinds_of_edges : List (String × ℕ) → List KindedEdge → EdgeKinds → EdgeKinds
unfolding note_kind get
kinds_of_edges ids [] kinds = kinds
kinds_of_edges ids (edge ∷ edges) kinds =
    kinds_of_edges ids edges (note_kind (get edge.source ids) (get edge.target ids) edge.kind kinds)

abbrev is_in : ℕ → List ℕ → Bool
is_in x [] = false
is_in x (y ∷ ys) = y == x || is_in x ys

-- The kinds of the edges from a node to others of the component.
unfoldable pub kinds_from : List ℕ → EdgeKinds → ℕ → List ℕ → List String → List String
unfolding get add_kinds
kinds_from scc kinds src [] found = found
kinds_from scc kinds src (tgt ∷ targets) found =
    kinds_from scc kinds src targets
      (if is_in tgt scc then add_kinds (get_default (src, tgt) [] kinds) found else found)

unfoldable pub kinds_within : List ℕ → EdgeKinds → Adjacency → List ℕ → List String → List String
unfolding kinds_from
kinds_within scc kinds adj [] found = found
kinds_within scc kinds adj (src ∷ sources) found =
    kinds_within scc kinds adj sources (kinds_from scc kinds src (adj src) found)

unfoldable pub kinds_of_loop : List ℕ → EdgeKinds → List String → List String
unfolding get add_kinds
kinds_of_loop (v ∷ []) kinds found = add_kinds (get_default (v, v) [] kinds) found
kinds_of_loop _ kinds found = found

pub record Cycle : Type 0 where
  pub id : String
  pub nodes : List String
  pub size : ℕ
  pub edge_kinds : List String

-- `"|".join(ids)`
unfoldable pub join_ids : List String → String
join_ids [] = ""
join_ids (s ∷ []) = s
join_ids (s ∷ t ∷ ss) = append s (append "|" (join_ids (t ∷ ss)))

-- `node_ids[i]`, where i is an index of the search, and so one of a node.
abbrev pub node_id_at : List String → ℕ → String
node_id_at node_ids i = elim (get_elem? node_ids i) [ none ↦ "" | some nid ↦ nid ]

unfoldable pub is_self_loop : (ℕ → Bool) → List ℕ → Bool
is_self_loop loops (v ∷ []) = loops v
is_self_loop loops _ = false

unfoldable pub cycle_entry : List String → List KindedEdge → List ℕ → Cycle
unfolding sorted text_le join_ids kinds_within kinds_of_loop kinds_of_edges adjacency self_loops
    is_self_loop number_nodes
cycle_entry node_ids edges scc =
    let ids = number_nodes 0 node_ids [] in
    let kinds = kinds_of_edges ids edges [] in
    let names = sorted text_le (map (node_id_at node_ids) scc) in
    let within = kinds_within scc kinds (adjacency node_ids (map ends_of edges)) scc [] in
    let loops = self_loops ids (map ends_of edges) (λ v. false) in
    record {
      id = join_ids names;
      nodes = names;
      size = length scc;
      edge_kinds =
          sorted text_le
            (if is_self_loop loops scc then kinds_of_loop scc kinds within else within);
    }

-- A component of one node is a cycle only with an edge to itself.
unfoldable pub cycle_entries : List String → List KindedEdge → List (List ℕ) → List Cycle
unfolding cycle_entry self_loops is_self_loop number_nodes
cycle_entries node_ids edges [] = []
cycle_entries node_ids edges (scc ∷ sccs) =
    let loops = self_loops (number_nodes 0 node_ids []) (map ends_of edges) (λ v. false) in
    let rest = cycle_entries node_ids edges sccs in
    if ltb 1 (length scc) || is_self_loop loops scc
    then cycle_entry node_ids edges scc ∷ rest
    else rest

-- The key (-size, id).
unfoldable pub larger_first : Cycle → Cycle → Bool
larger_first a b =
    if ltb b.size a.size then true else if ltb a.size b.size then false else text_le a.id b.id

-- `_MAX_CYCLE_ENTRIES`
abbrev pub max_cycle_entries : ℕ
max_cycle_entries = 100

-- The components; the search has always enough fuel, and does not raise.
unfoldable pub sccs_of : List String → List Edge → List (List ℕ)
unfolding components
sccs_of node_ids edges = elim (components node_ids edges) [
  | none ↦ []
  | some (ok t) ↦ t.sccs
  | some (raise e) ↦ []
]

unfoldable pub compute_cycles : List String → List KindedEdge → List Cycle
unfolding cycle_entries larger_first sccs_of sorted
compute_cycles node_ids edges =
    take max_cycle_entries
      (sorted larger_first (cycle_entries node_ids edges (sccs_of node_ids (map ends_of edges))))
