-- ===== src/Aggregates/Heat.antt =====
-- cumulative_heat answers by the sum over the events.
use grackle.Base.{
  ℕ, zero, suc, ◌+◌, ◌≤◌, String, none, some, List, [], ◌∷◌, true, ◌==◌, ltb, if◌then◌else◌, arith,
  ◌≡◌, refl, ◌∙◌, ap, length, get_or, Bool-cases, inl, inr, All,
}
use grackle.Base.Dict.{get_default}
use grackle.Base.Text.{string_key}
use grackle.Base.Bisect.{rank, Upward, rank-le, bisect_right-rank}
use native.Mathlib.Nat.{zero-add}
use grackle.Aggregates.Event.{Event}
use grackle.Aggregates.Tables.{Tables}
use grackle.Aggregates.Build.{Aggregates, of_tables}
use grackle.Aggregates.Query.{past, rounded, weight_at, cumulative_heat}
use grackle.Aggregates.Model.{sparse_between}
use grackle.Aggregates.Kept.{kept, positions, sums, Tracks}

-- Positions rise and start at `i`.
abbrev From : ℕ → List (ℕ × ℕ) → Type 0
From i [] = Unit
From i ((j, w) ∷ hs) = (i ≤ j) × From (suc j) hs

From-mono : (i j : ℕ) (hs : List (ℕ × ℕ)) → i ≤ j → From j hs → From i hs
From-mono i j [] h f = tt
From-mono i j ((p, w) ∷ hs) h f = (omega arith, f.1)

kept-From : (k : ℕ) (node_id : String) (i : ℕ) (es : List Event) → From i (kept k node_id i es)
kept-From k node_id i [] = tt
kept-From k node_id i ((none, w) ∷ es) =
    From-mono i (suc i) _ (omega arith) (kept-From k node_id (suc i) es)
kept-From k node_id i ((some nid, w) ∷ es) =
    let rest = kept-From k node_id (suc i) es in
    ground (arith, rest, From-mono i (suc i) (kept k node_id (suc i) es))

-- The weight of the hits before `n`.
abbrev total_below : ℕ → List (ℕ × ℕ) → ℕ
total_below n [] = 0
total_below n ((j, w) ∷ hs) = (if ltb j n then w else 0) + total_below n hs

From-past :
    (n i : ℕ) (hs : List (ℕ × ℕ)) → n ≤ i → From i hs → All (λ p. past n p ≡ true) (positions hs)
From-past n i [] h f = tt
From-past n i ((j, w) ∷ hs) h f = (ground arith, From-past n (suc j) hs (omega arith) f.1)

From-Upward : (n i : ℕ) (hs : List (ℕ × ℕ)) → From i hs → Upward (past n) (positions hs)
From-Upward n i [] f = tt
From-Upward n i ((j, w) ∷ hs) f =
    (λ e. From-past n (suc j) hs (ground arith) f.1, From-Upward n (suc j) hs f.1)

total_below_past : (n i : ℕ) (hs : List (ℕ × ℕ)) → n ≤ i → From i hs → total_below n hs ≡ 0
total_below_past n i [] h f = refl
total_below_past n i ((j, w) ∷ hs) h f =
    ground (arith, total_below_past n (suc j) hs (omega arith) f.1)

-- The prefix sum after `r` hits.
abbrev value : ℕ → ℕ → List ℕ → ℕ
value acc zero ws = acc
value acc (suc r) ws = get_or ws r 0

value-suc : (acc w r : ℕ) (ws : List ℕ) → value acc (suc r) ((acc + w) ∷ ws) ≡ value (acc + w) r ws
value-suc acc w zero ws = refl
value-suc acc w (suc r) ws = refl

value-rank :
    (n acc i : ℕ) (hs : List (ℕ × ℕ))
    → From i hs
    → value acc (rank (past n) (positions hs)) (sums acc hs) ≡ acc + total_below n hs
value-rank n acc i [] f = omega arith
value-rank n acc i ((j, w) ∷ hs) f = elim (Bool-cases (past n j)) [
  | inl e ↦ rw e (ground (arith, total_below_past n (suc j) hs (ground arith) f.1))
  | inr e ↦ rw (e, value-suc, value-rank n (acc + w) (suc j) hs f.1) (ground arith)
]

total_below-kept :
    (n k : ℕ) (node_id : String) (i : ℕ) (es : List Event)
    → total_below n (kept k node_id i es) ≡ sparse_between k node_id n i es
total_below-kept n k node_id i [] = refl
total_below-kept n k node_id i ((none, w) ∷ es) =
    ground (arith, total_below-kept n k node_id (suc i) es)
total_below-kept n k node_id i ((some nid, w) ∷ es) =
    ground (arith, total_below-kept n k node_id (suc i) es)

weight_at-value :
    (prefix : List (String × List ℕ)) (node_id : String) (r : ℕ)
    → r ≤ length (get_default node_id [] prefix)
    → (if r == 0 then 0 else weight_at (some prefix) node_id r)
      ≡ value 0 r (get_default node_id [] prefix)
unfolding weight_at
weight_at-value prefix node_id zero h = refl
weight_at-value prefix node_id (suc r) h = ground arith

length-positions : (acc : ℕ) (hs : List (ℕ × ℕ)) → length (sums acc hs) ≡ length (positions hs)
length-positions acc [] = refl
length-positions acc ((j, w) ∷ hs) = ap suc (length-positions (acc + w) hs)

-- A node with no hits is a node with an empty list of hits.
heat_default :
    (a : Aggregates) (prefix : List (String × List ℕ)) (node_id : String) (at_index : ℕ)
    → a.weight_prefix ≡ some prefix
    → let at = rank (past (rounded a.sparse_k at_index)) (get_default node_id [] a.hits) in
      Upward (past (rounded a.sparse_k at_index)) (get_default node_id [] a.hits)
      → cumulative_heat a node_id at_index
        ≡ (if at == 0 then 0 else weight_at (some prefix) node_id at)
unfolding cumulative_heat
heat_default a prefix node_id at_index p u = ground (
  arith,
  bisect_right-rank (past (rounded a.sparse_k at_index)) (get_default node_id [] a.hits) u,
)

module _ (k : ℕ) (es : List Event) (t : Tables) (node_id : String) (at_index : ℕ) where
  abbrev limit : ℕ
  limit = rounded k at_index

  abbrev hits_of : List (ℕ × ℕ)
  hits_of = kept k node_id 0 es

  heat-value :
      Tracks k es t
      → cumulative_heat (of_tables k t) node_id at_index
        ≡ value 0
            (rank (past limit) (get_default node_id [] t.hits))
            (get_default node_id [] t.weight_prefix)
  unfolding of_tables
  heat-value h =
      heat_default (of_tables k t) t.weight_prefix node_id at_index refl
        (rw h.hits (From-Upward limit 0 hits_of (kept-From k node_id 0 es)))
      ∙ weight_at-value t.weight_prefix node_id (rank (past limit) (get_default node_id [] t.hits))
          (rw (h.hits, h.sums, length-positions) (rank-le (past limit) (positions hits_of)))

  pub heat-Tracks :
      Tracks k es t
      → cumulative_heat (of_tables k t) node_id at_index ≡ sparse_between k node_id limit 0 es
  heat-Tracks h =
      rw (heat-value h, h.hits, h.sums)
        (rw (value-rank limit 0 0 hits_of (kept-From k node_id 0 es), zero-add)
          (total_below-kept limit k node_id 0 es))
