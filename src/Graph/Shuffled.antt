-- ===== src/Graph/Shuffled.antt =====
-- The hub scores of packages/agent/src/grackle/graph_analysis.py do not depend on the order of the graph.
use grackle.Base.{
  ℕ, ◌+◌, String, List, [], ◌∷◌, Option, none, some, true, false, ltb, is_some, if◌then◌else◌, take,
  ◌≡◌, refl, ap, sym, ◌∙◌, arith,
}
use mathlib.Core.List.{Perm}
use grackle.Base.Int.{ℤ, sub_ℕ, int_key}
use grackle.Base.Dict.{get, put, Distinct, put-Distinct, pair_key}
use grackle.Base.Lookup.{get-Perm}
use grackle.Base.Sort.{tally}
use grackle.Base.Sorted.{sorted-Perm, tally-Perm}
use grackle.Base.Text.{string_key, text_le_antisym}
use grackle.Graph.{
  Edge, Degrees, set_default, add_one_at, count_nodes, count_edges, degrees, score_of, scores,
  ranked_before, compute_hub_score, max_hub_entries,
}
use grackle.Graph.Scores.{
  is, has, in_edges, hub_score, all_scores, scored, scores-has, all_scores-has, degrees-edges,
  ranked_before-IsOrder,
}

scored-tally :
    (k : String) (nodes : List String) (edges : List Edge)
    → scored k nodes edges ≡ ltb 0 (tally (is k) nodes + in_edges k edges)
scored-tally k [] [] = refl
scored-tally k [] ((src, tgt) ∷ edges) = ground (arith, scored-tally k [] edges)
scored-tally k (nid ∷ nodes) edges = ground (arith, scored-tally k nodes edges)

scores-get :
    (k : String) (t : Degrees) (m : List (String × ℕ))
    → get k (scores t m) ≡ (if has k m then some (score_of t k) else none)
unfolding scores get
scores-get k t [] = refl
scores-get k t ((nid, n) ∷ m) = ground (arith, scores-get k t m)

set_default-Distinct :
    (nid : String) (m : List (String × ℕ)) → Distinct m → Distinct (set_default nid m)
unfolding set_default
set_default-Distinct nid m h =
    elim (get nid m)
      as (λ o. Distinct (elim o as (λ _. List (String × ℕ)) [ none ↦ put nid 0 m | some n ↦ m ])) [
        | none ↦ put-Distinct nid 0 m h
        | some n ↦ h
      ]

count_nodes-Distinct :
    (nodes : List String) (t : Degrees)
    → Distinct t.in_degree
    → Distinct (count_nodes nodes t).in_degree
unfolding count_nodes
count_nodes-Distinct [] t h = h
count_nodes-Distinct (nid ∷ nodes) t h =
    count_nodes-Distinct nodes _ (set_default-Distinct nid t.in_degree h)

count_edges-Distinct :
    (edges : List Edge) (t : Degrees)
    → Distinct t.in_degree
    → Distinct (count_edges edges t).in_degree
unfolding count_edges add_one_at
count_edges-Distinct [] t h = h
count_edges-Distinct ((src, tgt) ∷ edges) t h =
    count_edges-Distinct edges _ (put-Distinct tgt _ t.in_degree h)

gone : (o : Option ℤ) → is_some o ≡ false → o ≡ none
gone none e = refl
gone (some x) e = cc

scores-Distinct : (t : Degrees) (m : List (String × ℕ)) → Distinct m → Distinct (scores t m)
unfolding scores
scores-Distinct t [] h = tt
scores-Distinct t ((nid, n) ∷ m) h =
    (gone (get nid (scores t m)) (scores-has nid t m ∙ ap is_some h.0), scores-Distinct t m h.1)

all_scores-Distinct : (nodes : List String) (edges : List Edge) → Distinct (all_scores nodes edges)
unfolding degrees
all_scores-Distinct nodes edges =
    scores-Distinct (degrees nodes edges) (degrees nodes edges).in_degree
      (count_edges-Distinct edges _ (count_nodes-Distinct nodes _ tt))

all_scores-get :
    (k : String) (nodes : List String) (edges : List Edge)
    → get k (all_scores nodes edges)
      ≡ (if ltb 0 (tally (is k) nodes + in_edges k edges) then some (hub_score edges k) else none)
unfolding score_of
all_scores-get k nodes edges =
    let t = degrees nodes edges in
    let (i, o) = degrees-edges k nodes edges in
    let known : has k t.in_degree ≡ ltb 0 (tally (is k) nodes + in_edges k edges) =
      sym (scores-has k t t.in_degree)
      ∙ (all_scores-has k nodes edges ∙ scored-tally k nodes edges) in
    scores-get k t t.in_degree ∙ (λ j. if known j then some (sub_ℕ (i j) (o j)) else none)

ranked_before_antisym :
    (a b : String × ℤ) → ranked_before a b ≡ true → ranked_before b a ≡ true → a ≡ b
unfolding ranked_before
ranked_before_antisym (s, x) (t, y) h k = grind (arith, text_le_antisym s t)

-- The same nodes and the same edges in another order have the same hub scores.
pub compute_hub_score-Perm :
    (nodes ids : List String) (edges links : List Edge)
    → Perm nodes ids
    → Perm edges links
    → compute_hub_score nodes edges ≡ compute_hub_score ids links
unfolding compute_hub_score
compute_hub_score-Perm nodes ids edges links p q =
    let same : (k : String) → get k (all_scores nodes edges) ≡ get k (all_scores ids links) = λ k.
      let n = tally-Perm (is k) p in
      let i = tally-Perm (λ e. is k e.1) q in
      let o = tally-Perm (λ e. is k e.0) q in
      all_scores-get k nodes edges
      ∙ ((λ j. if ltb 0 (n j + i j) then some (sub_ℕ (i j) (o j)) else none)
          ∙ sym (all_scores-get k ids links)) in
    ap (take max_hub_entries) (
      sorted-Perm ranked_before ranked_before-IsOrder ranked_before_antisym (
        get-Perm (all_scores nodes edges) (all_scores ids links) (all_scores-Distinct nodes edges)
          (all_scores-Distinct ids links) same))
