-- ===== src/Aggregates/Query.antt =====
-- packages/agent/src/grackle/python_runtime/aggregates.py: the queries. The server clamps at_index
-- to the range of the trace before it asks, so it is a natural number.
use grackle.Base.{
  ℕ, ◌-◌, ◌*◌, ◌/◌, String, Option, none, some, List, [], ◌∷◌, Bool, map, ltb, ◌==◌, if◌then◌else◌,
  get_or, take,
}
use grackle.Base.Int.{sub_ℕ, ltb_ℤ, pos}
use grackle.Base.Dict.{get}
use grackle.Base.Text.{string_key, String_discrete, rank_then_text}
use grackle.Base.Bisect.{bisect_right}
use grackle.Base.Sort.{sorted}
use grackle.Aggregates.Build.{Aggregates}

-- `__len__`
unfoldable pub len : Aggregates → ℕ
len a = a.total

-- `x < h` at x = at_index - 1, which is -1 at index 0.
abbrev pub past : ℕ → ℕ → Bool
past at_index h = ltb_ℤ (sub_ℕ at_index 1) (pos h)

-- The weight of the first `at` recorded hits.
unfoldable pub weight_at : Option (List (String × List ℕ)) → String → ℕ → ℕ
unfolding get String_discrete
weight_at none node_id at = at
weight_at (some prefix) node_id at = elim (get node_id prefix) [
  | none ↦ at
  | some wp ↦ get_or wp (at - 1) 0
]

-- `(at_index // k) * k` where the index is sparse.
abbrev pub rounded : ℕ → ℕ → ℕ
rounded k at_index = if ltb 1 k then at_index / k * k else at_index

unfoldable pub cumulative_heat : Aggregates → String → ℕ → ℕ
unfolding get String_discrete bisect_right weight_at
cumulative_heat a node_id at_index = elim (get node_id a.hits) [
  | none ↦ 0
  | some hits ↦
      let at = bisect_right (past (rounded a.sparse_k at_index)) hits in
      if at == 0 then 0 else weight_at a.weight_prefix node_id at
]

unfoldable pub coverage_count : Aggregates → ℕ → ℕ
unfolding bisect_right
coverage_count a at_index = elim a.sorted_first [
  | [] ↦ 0
  | _ ↦ bisect_right (past at_index) a.sorted_first
]

-- `cumulative_heat_all`: the nodes with a positive count, in the order of the hit index.
unfoldable pub heat_from : Aggregates → ℕ → List (String × List ℕ) → List (String × ℕ)
unfolding cumulative_heat
heat_from a at_index [] = []
heat_from a at_index ((node_id, hits) ∷ rest) =
    let count = cumulative_heat a node_id at_index in
    if ltb 0 count then (node_id, count) ∷ heat_from a at_index rest else heat_from a at_index rest

unfoldable pub cumulative_heat_all : Aggregates → ℕ → List (String × ℕ)
unfolding heat_from
cumulative_heat_all a at_index = heat_from a at_index a.hits

-- The key (-count, node_id).
unfoldable pub hotter_first : String × ℕ → String × ℕ → Bool
hotter_first (s, m) (t, n) = rank_then_text n m s t

-- The loop of `top_k` collects what `cumulative_heat_all` returns.
unfoldable pub top_k : Aggregates → ℕ → ℕ → List (String × ℕ)
unfolding heat_from hotter_first sorted
top_k a k at_index =
    if k == 0 then [] else take k (sorted hotter_first (heat_from a at_index a.hits))

-- `node_ids`
unfoldable pub node_ids : Aggregates → List String
node_ids a = map (λ e. e.0) a.hits
