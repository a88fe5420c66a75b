-- ===== src/Diff/Regression.antt =====
-- When a diff of two traces reports a regression.
use grackle.Base.{
  ◌∙◌, sym, ◌↔◌, inr, inl, Bool-cases, is_some, map, ℕ, ◌<◌, String, Option, List, [], ◌∷◌, true,
  ◌≡◌, refl, arith,
}
use grackle.Base.Dict.{get}
use grackle.Base.Text.{string_key}
use grackle.Base.Sort.{insert, sorted}
use grackle.Aggregates.Build.{Aggregates}
use grackle.Aggregates.Query.{cumulative_heat, node_ids}
use grackle.Diff.{
  index_or_end, diff_trace_vs_trace, DiffEntry, shown_first, trace_entries, has_regression, member,
  union, given, universe,
}
use grackle.Diff.Order.{member-union}

regression-insert :
    (e : DiffEntry) (xs : List DiffEntry)
    → has_regression (insert shown_first e xs) ≡ has_regression (e ∷ xs)
unfolding insert has_regression
regression-insert e [] = refl
regression-insert e (x ∷ xs) = ground (arith, regression-insert e xs)

regression-sorted :
    (xs : List DiffEntry) → has_regression (sorted shown_first xs) ≡ has_regression xs
unfolding sorted has_regression
regression-sorted [] = refl
regression-sorted (x ∷ xs) =
    ground (arith, regression-insert x (sorted shown_first xs), regression-sorted xs)

-- A node with heat has hits.
heat-member :
    (a : Aggregates) (k : String) (i : ℕ) (m : List (String × List ℕ))
    → member k (map (λ e. e.0) m) ≡ is_some (get k m)
unfolding get
heat-member a k i [] = refl
heat-member a k i ((j, hits) ∷ m) = ground (arith, heat-member a k i m)

heat-universe :
    (a b : Aggregates) (k : String) (i : ℕ) (ids : Option (List String))
    → 0 < cumulative_heat a k i
    → member k (universe a b ids) ≡ true
unfolding universe cumulative_heat node_ids
heat-universe a b k i ids h = ground (
  arith,
  member-union k (given ids) (union (node_ids a) (union (node_ids b) [])),
  member-union k (node_ids a) (union (node_ids b) []),
  heat-member a k i a.hits,
)

module _ (a b : Aggregates) (ia ib : ℕ) where
  -- The node got hotter.
  abbrev Hotter : String → Type 0
  Hotter k = (0 < cumulative_heat a k ia) × (cumulative_heat a k ia < cumulative_heat b k ib)

  regression-find :
      (ids : List String)
      → has_regression (trace_entries a b ia ib ids) ≡ true
      → (k : String) × Hotter k
  unfolding has_regression trace_entries
  regression-find [] h = cc
  regression-find (k ∷ ids) h = elim (Bool-cases (has_regression (trace_entries a b ia ib ids))) [
    | inl e ↦ regression-find ids e
    | inr e ↦ (k, (ground arith, ground arith))
  ]

  regression-found :
      (ids : List String) (k : String)
      → member k ids ≡ true
      → Hotter k
      → has_regression (trace_entries a b ia ib ids) ≡ true
  unfolding has_regression trace_entries
  regression-found [] k m h = cc
  regression-found (j ∷ ids) k m h = ground (arith, regression-found ids k)

-- A diff of two traces reports a regression exactly when the heat of some node is positive in the
-- baseline and higher in the comparison, whatever further ids the caller gives.
pub regression_iff :
    (a b : Aggregates) (ids : Option (List String)) (at_a at_b : Option ℕ)
    → let ia = index_or_end at_a a in
      let ib = index_or_end at_b b in
      (has_regression (diff_trace_vs_trace a b ids at_a at_b) ≡ true) ↔ (
        (k : String) × (0 < cumulative_heat a k ia)
        × (cumulative_heat a k ia < cumulative_heat b k ib))
unfolding diff_trace_vs_trace
regression_iff a b ids at_a at_b =
    let ia = index_or_end at_a a in
    let ib = index_or_end at_b b in
    let all = trace_entries a b ia ib (universe a b ids) in
    (
      (λ h.
          let (k, hot) =
            regression-find a b ia ib (universe a b ids) (sym (regression-sorted all) ∙ h) in
          (k, hot.0, hot.1)),
      (λ (k, low, high).
          regression-sorted all
          ∙ regression-found a b ia ib (universe a b ids) k (heat-universe a b k ia ids low)
              (low, high)),
    )
