-- ===== src/Graph/Scores.antt =====
-- The hub scores are the differences of the degrees, ranked.
use grackle.Base.Top.{take-Top, Top}
use grackle.Base.{
  is_some, refl, ◌||◌, All-take, ◌∙◌, [], All, ◌∷◌, ℕ, ◌+◌, String, List, Bool, true, false, ite,
  if◌then◌else◌, arith, ◌≡◌,
}
use grackle.Base.Dict.{get, get-put, get_default}
use grackle.Base.Text.{text_le_trans, text_le_total, string_key, String_discrete}
use grackle.Base.Sort.{sorted-All, sorted, IsOrder, tally}
use grackle.Graph.{
  score_of, sub_ℕ, Degrees, count_edges, degrees, ranked_before, scores, ℤ, count_nodes,
  compute_hub_score, Edge, set_default, add_one_at,
}

abbrev pub is : String → String → Bool
is k x = ite (String_discrete x k) true false

-- How many edges end in a node, and how many start there.
abbrev pub in_edges : String → List Edge → ℕ
in_edges k edges = tally (λ e. ite (String_discrete e.1 k) true false) edges

abbrev pub out_edges : String → List Edge → ℕ
out_edges k edges = tally (λ e. ite (String_discrete e.0 k) true false) edges

set_default-get :
    (k nid : String) (m : List (String × ℕ))
    → get_default k 0 (set_default nid m) ≡ get_default k 0 m
unfolding set_default
set_default-get k nid m = ground (arith, get-put nid k 0 m)

add_one_at-get :
    (k nid : String) (m : List (String × ℕ))
    → get_default k 0 (add_one_at nid m) ≡ get_default k 0 m + (if is k nid then 1 else 0)
unfolding add_one_at
add_one_at-get k nid m = ground (arith, get-put nid k (get_default nid 0 m + 1) m)

-- The degrees of a node in the tables.
abbrev in_of : String → Degrees → ℕ
in_of k t = get_default k 0 t.in_degree

abbrev out_of : String → Degrees → ℕ
out_of k t = get_default k 0 t.out_degree

count_nodes-degrees :
    (k : String) (nodes : List String) (t : Degrees)
    → (in_of k (count_nodes nodes t) ≡ in_of k t) × (out_of k (count_nodes nodes t) ≡ out_of k t)
unfolding count_nodes
count_nodes-degrees k [] t = (refl, refl)
count_nodes-degrees k (nid ∷ rest) t =
    let (i, o) = count_nodes-degrees k rest record {
      in_degree = set_default nid t.in_degree;
      out_degree = set_default nid t.out_degree;
    } in
    (i ∙ set_default-get k nid t.in_degree, o ∙ set_default-get k nid t.out_degree)

count_edges-degrees :
    (k : String) (edges : List Edge) (t : Degrees)
    → (in_of k (count_edges edges t) ≡ in_of k t + in_edges k edges)
      × (out_of k (count_edges edges t) ≡ out_of k t + out_edges k edges)
unfolding count_edges
count_edges-degrees k [] t = (omega arith, omega arith)
count_edges-degrees k ((src, tgt) ∷ rest) t =
    let (i, o) =
      count_edges-degrees k rest record {
        in_degree = add_one_at tgt t.in_degree;
        out_degree = add_one_at src t.out_degree;
      } in
    (
      ground (arith, i, add_one_at-get k tgt t.in_degree),
      ground (arith, o, add_one_at-get k src t.out_degree),
    )

pub degrees-edges :
    (k : String) (nodes : List String) (edges : List Edge)
    → (in_of k (degrees nodes edges) ≡ in_edges k edges)
      × (out_of k (degrees nodes edges) ≡ out_edges k edges)
unfolding degrees get
degrees-edges k nodes edges =
    let empty : Degrees = record { in_degree = []; out_degree = [] } in
    let (i, o) = count_edges-degrees k edges (count_nodes nodes empty) in
    let (a, b) = count_nodes-degrees k nodes empty in (omega (arith, i, a), omega (arith, o, b))

-- The score of a node by the edges.
abbrev pub hub_score : List Edge → String → ℤ
hub_score edges k = sub_ℕ (in_edges k edges) (out_edges k edges)

scores-All :
    (nodes : List String) (edges : List Edge) (m : List (String × ℕ))
    → All (λ e. e.1 ≡ hub_score edges e.0) (scores (degrees nodes edges) m)
unfolding scores score_of
scores-All nodes edges [] = tt
scores-All nodes edges ((nid, n) ∷ m) =
    let (i, o) = degrees-edges nid nodes edges in (rw (i, o) refl, scores-All nodes edges m)

pub ranked_before-IsOrder : IsOrder ranked_before
unfolding ranked_before
ranked_before-IsOrder = record {
  total = λ (s, x) (t, y) h. ground (arith, text_le_total s t);
  trans = λ (s, x) (t, y) (u, z) h l. ground (arith, text_le_trans s t u);
}

-- All entries, before they are ranked and cut.
abbrev pub all_scores : List String → List Edge → List (String × ℤ)
all_scores nodes edges = scores (degrees nodes edges) (degrees nodes edges).in_degree

-- Whether an id is one of the nodes, or the target of an edge.
abbrev pub scored : String → List String → List Edge → Bool
scored k [] [] = false
scored k [] ((src, tgt) ∷ edges) = is k tgt || scored k [] edges
scored k (nid ∷ nodes) edges = is k nid || scored k nodes edges

abbrev pub has : String → List (String × ℕ) → Bool
has k m = is_some (get k m)

set_default-has :
    (k nid : String) (m : List (String × ℕ)) → has k (set_default nid m) ≡ (is k nid || has k m)
unfolding set_default
set_default-has k nid m = ground (arith, get-put nid k 0 m)

add_one_at-has :
    (k nid : String) (m : List (String × ℕ)) → has k (add_one_at nid m) ≡ (is k nid || has k m)
unfolding add_one_at
add_one_at-has k nid m = ground (arith, get-put nid k (get_default nid 0 m + 1) m)

degrees-has :
    (k : String) (nodes : List String) (edges : List Edge) (t : Degrees)
    → has k (count_edges edges (count_nodes nodes t)).in_degree
      ≡ (scored k nodes edges || has k t.in_degree)
unfolding count_edges count_nodes
degrees-has k [] [] t = refl
degrees-has k [] ((src, tgt) ∷ edges) t = ground (
  arith,
  degrees-has k [] edges
      record { in_degree = add_one_at tgt t.in_degree; out_degree = add_one_at src t.out_degree },
  add_one_at-has k tgt t.in_degree,
)
degrees-has k (nid ∷ nodes) edges t = ground (
  arith,
  degrees-has k nodes edges
      record { in_degree = set_default nid t.in_degree; out_degree = set_default nid t.out_degree },
  set_default-has k nid t.in_degree,
)

pub scores-has :
    (k : String) (t : Degrees) (m : List (String × ℕ)) → is_some (get k (scores t m)) ≡ has k m
unfolding scores get
scores-has k t [] = refl
scores-has k t ((nid, n) ∷ m) = ground (arith, scores-has k t m)

or-false : (b : Bool) → (b || false) ≡ b
or-false true = refl
or-false false = refl

pub all_scores-has :
    (k : String) (nodes : List String) (edges : List Edge)
    → is_some (get k (all_scores nodes edges)) ≡ scored k nodes edges
unfolding degrees get
all_scores-has k nodes edges =
    scores-has k (degrees nodes edges) (degrees nodes edges).in_degree
    ∙ degrees-has k nodes edges record { in_degree = []; out_degree = [] }
    ∙ or-false (scored k nodes edges)

-- The hub scores of a graph: each entry that is returned is the number of edges into its node less
-- the number of edges out of it, and the entries are the first 50 of a ranking of all entries by
-- falling score and then by id, where the nodes and the targets of edges have entries, and no
-- other ids.
pub compute_hub_score-Top :
    (nodes : List String) (edges : List Edge)
    → All (λ e. e.1 ≡ hub_score edges e.0) (compute_hub_score nodes edges)
      × Top ranked_before 50 (all_scores nodes edges) (compute_hub_score nodes edges)
      × ((k : String) → is_some (get k (all_scores nodes edges)) ≡ scored k nodes edges)
unfolding compute_hub_score
compute_hub_score-Top nodes edges = (
  All-take (λ e. e.1 ≡ hub_score edges e.0) 50 (sorted ranked_before (all_scores nodes edges))
      (sorted-All ranked_before (λ e. e.1 ≡ hub_score edges e.0) (all_scores nodes edges)
        (scores-All nodes edges (degrees nodes edges).in_degree)),
  take-Top ranked_before ranked_before-IsOrder 50 (all_scores nodes edges),
  λ k. all_scores-has k nodes edges,
)
