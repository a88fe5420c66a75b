-- ===== src/Graph/Searched.antt =====
-- The search of _compute_cycles in packages/agent/src/grackle/graph_analysis.py from start to end.
use grackle.Base.{
  ℕ, zero, suc, ◌+◌, ◌≤◌, ◌<◌, String, List, [], ◌∷◌, Option, none, some, true, ◌==◌, is_some,
  if◌then◌else◌, get_elem?, length, ◌≡◌, refl, ap, ◌∙◌, subst, All, All-append, arith, inl, inr,
  Bool-cases, Option-cases,
}
use grackle.Base.Dict.{get, put, Values, Values-put, Values-get}
use native.Mathlib.Decide.{ℕ_discrete}
use grackle.Base.Text.{string_key}
use grackle.Base.Result.{Result, ok, raise}
use grackle.Graph.{Edge}
use grackle.Graph.Cycles.{
  Adjacency, update, number_nodes, add_edge, add_edges, adjacency, Tarjan, visit, run, search_from,
  work, fresh, components,
}
use grackle.Graph.Ends.{
  pending, unseen, unseen_fresh, unseen-update, Seen, left_of, next-Stepped, update_seen, IsOnce,
  occurs_in, once-visit,
}
use grackle.Graph.Based.{Outcome, IfOk}
use grackle.Graph.Emptied.{
  next-Based, IsQuiet, visit_start-Based, Doing, Doing-IsQuiet, Doing-Based,
}
use grackle.Graph.Stack.{IsOn, occurs}

-- Every neighbour is a node.
abbrev pub IsBounded : ℕ → Adjacency → Type 0
IsBounded n adj = (v : ℕ) → All (λ w. w < n) (adj v)

visit_seen :
    (w : ℕ) (calls : List (ℕ × ℕ)) (t : Tarjan) → is_some ((visit w calls t).indices w) ≡ true
unfolding visit update
visit_seen w calls t = ground arith

lt_of : (a b : ℕ) → a ≤ b → ¬ (a ≡ b) → suc a ≤ b
lt_of a b h d = ground arith

from_start :
    {n : ℕ} (start v : ℕ) (P : ℕ → Type 0)
    → P start
    → (suc start ≤ v → v < n → P v)
    → start ≤ v
    → v < n
    → P v
from_start start v P p h a b = elim (ℕ_discrete start v) [
  | yes q ↦ subst P q p
  | no q ↦ h (lt_of start v a q) b
]

module _ (adj : Adjacency) (n : ℕ) (bounded : IsBounded n adj) where
  run_ends :
      (fuel : ℕ) (calls : List (ℕ × ℕ)) (t : Tarjan)
      → left_of adj n calls t ≤ fuel
      → IsOn calls t.stack
      → (t' : Tarjan) × (run adj fuel calls t ≡ some (ok t'))
        × (unseen adj n t'.indices ≤ left_of adj n calls t)
        × Seen adj t t'
        × (IsOnce t → IsOnce t')
        × ((start b : ℕ) → IsOnce t → Doing start b calls t → IsQuiet t')
  unfolding run pending
  run_ends fuel [] t h on =
      (t, refl, omega arith, λ v k. k, λ o. o, λ s b o d. Doing-IsQuiet s b t d)
  run_ends zero ((v, pos) ∷ calls) t h on = absurd (omega (arith, h))
  run_ends (suc fuel) ((v, pos) ∷ calls) t h on =
      let (t1, e, l, on1, s1, o1) =
        next-Stepped adj n v pos calls t (bounded v) on (get_elem? (adj v) pos) refl in
      let after : Result Tarjan → Option (Result Tarjan) =
        λ r. elim r [ ok t' ↦ run adj fuel t'.call_stack t' | raise x ↦ some (raise x) ] in
      let (t2, f, l2, s2, o2, q2) = run_ends fuel t1.call_stack t1 (omega arith) on1 in
      (
        t2,
        ap after e ∙ f,
        omega arith,
        λ x k. s2 x (s1 x k),
        λ o. o2 (o1 o),
        λ s b o d. q2 s b (o1 o) (
            subst (IfOk (Outcome s b)) e (
              next-Based s b v pos calls t (Doing-Based s b (v, pos) calls t d) on o
                (get_elem? (adj v) pos))),
      )

  visit_ends :
      (fuel start : ℕ) (t : Tarjan)
      → start < n
      → t.indices start ≡ none
      → unseen adj n t.indices ≤ fuel
      → (t' : Tarjan) × (run adj fuel ((start, 0) ∷ []) (visit start ((start, 0) ∷ []) t)
          ≡ some (ok t'))
        × (unseen adj n t'.indices ≤ unseen adj n t.indices)
        × Seen adj t t'
        × (is_some (t'.indices start) ≡ true)
        × (IsOnce t → IsOnce t')
        × (IsOnce t → IsQuiet t → IsQuiet t')
  unfolding visit pending
  visit_ends fuel start t a e h =
      let t1 = visit start ((start, 0) ∷ []) t in
      let spent : left_of adj n ((start, 0) ∷ []) t1 ≡ unseen adj n t.indices =
        ground (arith, unseen-update adj n start t.index_counter t.indices e) in
      let once : IsOnce t → IsOnce t1 =
        λ h x. once-visit start t.index_counter x (occurs_in x t.sccs) t.stack t.indices e (h x) in
      let (t2, f, l, s, o, quiet) =
        run_ends fuel ((start, 0) ∷ []) t1 (omega arith) (inl (refl, tt)) in
      (
        t2,
        f,
        omega arith,
        λ x k. s x (update_seen adj start t.index_counter x t.indices k),
        s start (visit_seen start ((start, 0) ∷ []) t),
        λ h. o (once h),
        λ h q. quiet start t.index_counter (once h) (inl (visit_start-Based start t q)),
      )

  search_ends :
      (fuel left start : ℕ) (t : Tarjan)
      → start + left ≡ n
      → unseen adj n t.indices ≤ fuel
      → (t' : Tarjan) × (search_from adj fuel left start t ≡ some (ok t'))
        × Seen adj t t'
        × (IsOnce t → IsOnce t')
        × (IsOnce t → IsQuiet t → IsQuiet t')
        × ((v : ℕ) → start ≤ v → v < n → is_some (t'.indices v) ≡ true)
  unfolding search_from
  search_ends fuel zero start t p h =
      (t, refl, λ v k. k, λ o. o, λ o q. q, λ v a b. absurd (omega arith))
  search_ends fuel (suc left) start t p h = elim (Option-cases (t.indices start)) [
    | inl e ↦
        let (t1, f, l, s, k, o, q1) = visit_ends fuel start t (omega arith) e h in
        let (t2, g, s2, o2, q2, all) =
          search_ends fuel left (suc start) t1 (omega arith) (omega arith) in
        let after : Option (Result Tarjan) → Option (Result Tarjan) = λ r. elim r [
          | none ↦ none
          | some (ok t') ↦ search_from adj fuel left (suc start) t'
          | some (raise x) ↦ some (raise x)
        ] in
        (
          t2,
          rw e (ap after f ∙ g),
          λ v q. s2 v (s v q),
          λ h. o2 (o h),
          λ h q. q2 (o h) (q1 h q),
          λ v. from_start start v (λ x. is_some (t2.indices x) ≡ true) (s2 start k) (all v),
        )
    | inr (i, e) ↦
        let (t2, g, s2, o2, q2, all) = search_ends fuel left (suc start) t (omega arith) h in
        (
          t2,
          rw e g,
          s2,
          o2,
          q2,
          λ v.
              from_start start v (λ x. is_some (t2.indices x) ≡ true) (s2 start (rw e refl))
                (all v),
        )
  ]

-- The numbers of the nodes are below their count, and so are the neighbours.
number_nodes-Values :
    (n i : ℕ) (nodes : List String) (m : List (String × ℕ))
    → i + length nodes ≤ n
    → Values (λ k. k < n) m
    → Values (λ k. k < n) (number_nodes i nodes m)
unfolding number_nodes
number_nodes-Values n i [] m h v = v
number_nodes-Values n i (nid ∷ nodes) m h v =
    number_nodes-Values n (suc i) nodes (put nid i m) (omega arith)
      (Values-put (λ k. k < n) nid i m v (omega arith))

add_edge-IsBounded :
    (n : ℕ) (src tgt : Option ℕ) (adj : Adjacency)
    → ((k : ℕ) → tgt ≡ some k → k < n)
    → IsBounded n adj
    → IsBounded n (add_edge src tgt adj)
unfolding add_edge update
add_edge-IsBounded n (some src) (some tgt) adj h b v = elim (Bool-cases (src == tgt)) [
  | inl e ↦ rw e (b v)
  | inr e ↦ elim (Bool-cases (v == src)) [
    | inl f ↦ rw (e, f) (All-append (λ w. w < n) (adj src) (tgt ∷ []) (b src) (h tgt refl, tt))
    | inr f ↦ rw (e, f) (b v)
  ]
]
add_edge-IsBounded n none tgt adj h b v = b v
add_edge-IsBounded n (some src) none adj h b v = b v

add_edges-IsBounded :
    (n : ℕ) (ids : List (String × ℕ)) (edges : List Edge) (adj : Adjacency)
    → Values (λ k. k < n) ids
    → IsBounded n adj
    → IsBounded n (add_edges ids edges adj)
unfolding add_edges
add_edges-IsBounded n ids [] adj h b = b
add_edges-IsBounded n ids ((src, tgt) ∷ edges) adj h b =
    add_edges-IsBounded n ids edges (add_edge (get src ids) (get tgt ids) adj) h (
      add_edge-IsBounded n (get src ids) (get tgt ids) adj
        (λ k e. Values-get (λ k'. k' < n) tgt k ids h e) b)

-- The search for the strongly connected components ends within one step for each node and each edge, with
-- no pop of an empty stack, and then every node is in exactly one component, once.
pub components_ends :
    (nodes : List String) (edges : List Edge)
    → (t : Tarjan) × (components nodes edges ≡ some (ok t))
      × ((v : ℕ) → v < length nodes → occurs_in v t.sccs ≡ 1)
unfolding components adjacency
components_ends nodes edges =
    let n = length nodes in
    let adj = adjacency nodes edges in
    let bounded : IsBounded n adj =
      add_edges-IsBounded n (number_nodes 0 nodes []) edges (λ v. [])
        (number_nodes-Values n 0 nodes [] (omega arith) tt) (λ v. tt) in
    let (t, e, s, o, q, all) =
      search_ends adj n bounded (work adj n) n 0 fresh (omega arith)
        (omega (arith, unseen_fresh adj n)) in
    let (empty, off) = q (λ x. refl) (refl, λ w h. cc) in
    (
      t,
      e,
      λ v h.
          let once = o (λ x. refl) v ∙ ap (λ b. if b then 1 else 0) (all v (omega arith) h) in
          omega (arith, once, ap (occurs v) empty),
    )
