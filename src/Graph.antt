-- ===== src/Graph.antt =====
-- packages/agent/src/grackle/graph_analysis.py: the hub scores of a graph.
pub mod Cycles
pub mod Stack
pub mod Ends
pub mod Based
pub mod Emptied
pub mod Searched
pub mod Scores
pub mod Entries
pub mod Shuffled
mod Tests
use grackle.Base.Sort.{sorted}
use grackle.Base.{false, true, if◌then◌else◌, ℕ, ◌+◌, String, none, some, List, [], ◌∷◌, Bool, take}
use grackle.Base.Int.{ltb_ℤ, ℤ, sub_ℕ}
use grackle.Base.Dict.{get, put, get_default}
use grackle.Base.Text.{text_le, string_key}

-- Of an edge, its source and its target.
abbrev pub Edge : Type 0
Edge = String × String

-- The dicts in_degree and out_degree.
pub record Degrees : Type 0 where
  pub in_degree : List (String × ℕ)
  pub out_degree : List (String × ℕ)

-- `d.setdefault(nid, 0)`
unfoldable pub set_default : String → List (String × ℕ) → List (String × ℕ)
unfolding get put
set_default nid m = elim (get nid m) [ none ↦ put nid 0 m | some n ↦ m ]

-- `d[nid] = d.get(nid, 0) + 1`
unfoldable pub add_one_at : String → List (String × ℕ) → List (String × ℕ)
unfolding get put
add_one_at nid m = put nid (get_default nid 0 m + 1) m

unfoldable pub count_nodes : List String → Degrees → Degrees
unfolding set_default
count_nodes [] t = t
count_nodes (nid ∷ rest) t =
    count_nodes rest
      record { in_degree = set_default nid t.in_degree; out_degree = set_default nid t.out_degree }

unfoldable pub count_edges : List Edge → Degrees → Degrees
unfolding add_one_at
count_edges [] t = t
count_edges ((src, tgt) ∷ rest) t =
    count_edges rest
      record { in_degree = add_one_at tgt t.in_degree; out_degree = add_one_at src t.out_degree }

unfoldable pub degrees : List String → List Edge → Degrees
unfolding count_nodes count_edges
degrees nodes edges =
    count_edges edges (count_nodes nodes record { in_degree = []; out_degree = [] })

-- The entries: each key of in_degree with its score.
unfoldable pub score_of : Degrees → String → ℤ
unfolding get
score_of t nid = sub_ℕ (get_default nid 0 t.in_degree) (get_default nid 0 t.out_degree)

unfoldable pub scores : Degrees → List (String × ℕ) → List (String × ℤ)
unfolding score_of
scores t [] = []
scores t ((nid, n) ∷ rest) = (nid, score_of t nid) ∷ scores t rest

-- The key (-score, node_id).
unfoldable pub ranked_before : String × ℤ → String × ℤ → Bool
ranked_before (s, x) (t, y) = if ltb_ℤ y x then true else if ltb_ℤ x y then false else text_le s t

-- `_MAX_HUB_ENTRIES`
abbrev pub max_hub_entries : ℕ
max_hub_entries = 50

unfoldable pub compute_hub_score : List String → List Edge → List (String × ℤ)
unfolding degrees scores sorted ranked_before
compute_hub_score nodes edges =
    let t = degrees nodes edges in
    take max_hub_entries (sorted ranked_before (scores t t.in_degree))
