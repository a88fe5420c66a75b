-- ===== src/Aggregates/TopK.antt =====
-- cumulative_heat_all and top_k, for any aggregates.
use grackle.Base.{
  ℕ, zero, suc, String, none, some, List, [], ◌∷◌, true, false, ltb, if◌then◌else◌, arith, ◌≡◌,
  refl, take, ◌<◌, ◌⊎◌, ◌++◌, length, min, All, All-take, All-mono, if_split, ap, ◌∙◌,
}
use mathlib.Core.List.{Perm}
use mathlib.Core.List.Perm
use grackle.Base.Top.{take-Top}
use grackle.Base.Dict.{get}
use grackle.Base.Text.{text_le, text_le_trans, rank_then_text_total, string_key}
use grackle.Base.Sort.{sorted, IsOrder, sorted-perm, sorted-All, Pairwise, Ordered-Pairwise}
use grackle.Base.Sorted.{length-Perm}
use grackle.Aggregates.Build.{Aggregates}
use grackle.Aggregates.Query.{cumulative_heat, heat_from, cumulative_heat_all, hotter_first, top_k}

heat_from-get :
    (a : Aggregates) (at_index : ℕ) (m : List (String × List ℕ)) (node_id : String)
    → get node_id (heat_from a at_index m) ≡ elim (get node_id m) [
      | none ↦ none
      | some hits ↦
          if ltb 0 (cumulative_heat a node_id at_index)
          then some (cumulative_heat a node_id at_index)
          else none
    ]
unfolding get heat_from
heat_from-get a at_index [] node_id = refl
heat_from-get a at_index ((j, hits) ∷ m) node_id =
    ground (arith, heat_from-get a at_index m node_id)

-- The map of heats has a node's heat, for exactly the nodes whose heat is positive.
pub heat_all_lookup :
    (a : Aggregates) (at_index : ℕ) (node_id : String)
    → get node_id (cumulative_heat_all a at_index) ≡ (
        if ltb 0 (cumulative_heat a node_id at_index)
        then some (cumulative_heat a node_id at_index)
        else none)
unfolding cumulative_heat_all cumulative_heat
heat_all_lookup a at_index node_id = ground (arith, heat_from-get a at_index a.hits node_id)

hotter_total : (x y : String × ℕ) → hotter_first x y ≡ false → hotter_first y x ≡ true
unfolding hotter_first
hotter_total (s, m) (t, n) h = rank_then_text_total n m s t h

hotter_trans :
    (x y z : String × ℕ)
    → hotter_first x y ≡ true
    → hotter_first y z ≡ true
    → hotter_first x z ≡ true
unfolding hotter_first
hotter_trans (s, m) (t, n) (u, k) h l = ground (arith, text_le_trans s t u)

hotter_first-IsOrder : IsOrder hotter_first
hotter_first-IsOrder = record { total = hotter_total; trans = hotter_trans }

top_k-suc :
    (a : Aggregates) (k at_index : ℕ)
    → top_k a (suc k) at_index ≡ take (suc k) (sorted hotter_first (heat_from a at_index a.hits))
unfolding top_k
top_k-suc a k at_index = ground arith

-- A node with its heat, which is positive.
abbrev pub IsHeat : Aggregates → ℕ → String × ℕ → Type 0
IsHeat a at_index (node_id, n) = (0 < n) × (n ≡ cumulative_heat a node_id at_index)

-- The hotter of two nodes stands first, of two that are equally hot the one of the lesser id.
abbrev pub Hotter : String × ℕ → String × ℕ → Type 0
Hotter (s, m) (t, n) = (n < m) ⊎ ((m ≡ n) × (text_le s t ≡ true))

hotter_first-Hotter : (x y : String × ℕ) → hotter_first x y ≡ true → Hotter x y
unfolding hotter_first
hotter_first-Hotter (s, m) (t, n) h = ground arith

-- The first of the map of heats, as many as `k` allows; the others of the map, in some order, stand
-- after each of them.
abbrev pub Best : Aggregates → ℕ → ℕ → List (String × ℕ) → Type 0
Best a k at_index top =
    (length top ≡ min k (length (cumulative_heat_all a at_index)))
    × All (IsHeat a at_index) top
    × Pairwise Hotter top
    × ((rest : List (String × ℕ)) × Perm (top ++ rest) (cumulative_heat_all a at_index)
        × All (λ x. All (Hotter x) rest) top)

heat_from-All :
    (a : Aggregates) (at_index : ℕ) (m : List (String × List ℕ))
    → All (IsHeat a at_index) (heat_from a at_index m)
unfolding heat_from
heat_from-All a at_index [] = tt
heat_from-All a at_index ((node_id, hits) ∷ m) =
    if_split (All (IsHeat a at_index)) (ltb 0 (cumulative_heat a node_id at_index)) _ _
      (λ h. ((ground arith, refl), heat_from-All a at_index m)) (λ h. heat_from-All a at_index m)

length-take : (k : ℕ) (xs : List (String × ℕ)) → length (take k xs) ≡ min k (length xs)
length-take zero xs = omega arith
length-take (suc k) [] = omega arith
length-take (suc k) (x ∷ xs) = omega (arith, length-take k xs)

-- top_k returns the k hottest nodes, or all with a positive heat where these are fewer: each with its
-- heat, hottest first with ties by id, and every other node of the map of heats stands after each of
-- them.
pub top_k-Best : (a : Aggregates) (k at_index : ℕ) → Best a k at_index (top_k a k at_index)
unfolding cumulative_heat_all
top_k-Best a zero at_index =
    (unfold top_k in (omega arith, tt, tt, (heat_from a at_index a.hits, Perm.refl _, tt)))
top_k-Best a (suc k) at_index =
    let heats = heat_from a at_index a.hits in
    let ranked = sorted hotter_first heats in
    let (most, order, (rest, perm, after)) =
      take-Top hotter_first hotter_first-IsOrder (suc k) heats in
    rw top_k-suc (
      length-take (suc k) ranked ∙ ap (min (suc k)) (length-Perm (sorted-perm hotter_first heats)),
      All-take (IsHeat a at_index) (suc k) ranked
          (sorted-All hotter_first (IsHeat a at_index) heats (heat_from-All a at_index a.hits)),
      Ordered-Pairwise Hotter hotter_first hotter_first-Hotter _ order,
      (
        rest,
        perm,
        All-mono _ _
            (λ x. All-mono (λ y. hotter_first x y ≡ true) (Hotter x) (hotter_first-Hotter x) rest) _
            after,
      ),
    )
