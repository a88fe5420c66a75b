-- ===== src/Graph/Cycles.antt =====
-- packages/agent/src/grackle/graph_analysis.py: the loops of _compute_cycles that find the strongly
-- connected components. A list of one value per node is the function of its index.
use grackle.Base.{
  ℕ, zero, suc, ◌+◌, min, String, List, [], ◌∷◌, ◌++◌, Option, none, some, Bool, true, false, ◌==◌,
  if◌then◌else◌, is_some, get_elem?, length,
}
use grackle.Base.Dict.{get, put}
use grackle.Base.Text.{string_key}
use grackle.Base.Result.{Result, ok, raise, index_error, ◌>>=◌}
use grackle.Graph.{Edge}

abbrev pub Adjacency : Type 0
Adjacency = ℕ → List ℕ

-- `f[k] = v`
unfoldable pub update {ℓ} : {A : Type ℓ} → ℕ → A → (ℕ → A) → ℕ → A
update k v f j = if j == k then v else f j

-- `{nid: i for i, nid in enumerate(node_ids)}`, from an index on.
unfoldable pub number_nodes : ℕ → List String → List (String × ℕ) → List (String × ℕ)
unfolding put
number_nodes i [] m = m
number_nodes i (nid ∷ rest) m = number_nodes (suc i) rest (put nid i m)

-- The loop over the edges: a self loop is not in the adjacency.
unfoldable pub add_edge : Option ℕ → Option ℕ → Adjacency → Adjacency
unfolding update
add_edge (some src) (some tgt) adj =
    if src == tgt then adj else update src (adj src ++ tgt ∷ []) adj
add_edge _ _ adj = adj

unfoldable pub add_edges : List (String × ℕ) → List Edge → Adjacency → Adjacency
unfolding add_edge get
add_edges ids [] adj = adj
add_edges ids ((src, tgt) ∷ edges) adj =
    add_edges ids edges (add_edge (get src ids) (get tgt ids) adj)

unfoldable pub adjacency : List String → List Edge → Adjacency
unfolding add_edges number_nodes
adjacency nodes edges = add_edges (number_nodes 0 nodes []) edges (λ v. [])

-- The variables of the search. The last of stack and of call_stack comes first.
pub record Tarjan : Type 0 where
  pub index_counter : ℕ
  pub indices : ℕ → Option ℕ
  pub lowlinks : ℕ → ℕ
  pub on_stack : ℕ → Bool
  pub stack : List ℕ
  pub sccs : List (List ℕ)
  pub call_stack : List (ℕ × ℕ)

-- A node that is met first, with the call stack then.
unfoldable pub visit : ℕ → List (ℕ × ℕ) → Tarjan → Tarjan
unfolding update
visit w calls t = record {
  index_counter = t.index_counter + 1;
  indices = update w (some t.index_counter) t.indices;
  lowlinks = update w t.index_counter t.lowlinks;
  on_stack = update w true t.on_stack;
  stack = w ∷ t.stack;
  sccs = t.sccs;
  call_stack = calls;
}

-- An edge to a node that has an index.
unfoldable pub back_edge : ℕ → ℕ → ℕ → List (ℕ × ℕ) → Tarjan → Tarjan
unfolding update
back_edge v w w_index calls t = record {
  index_counter = t.index_counter;
  indices = t.indices;
  lowlinks = if t.on_stack w then update v (min (t.lowlinks v) w_index) t.lowlinks else t.lowlinks;
  on_stack = t.on_stack;
  stack = t.stack;
  sccs = t.sccs;
  call_stack = calls;
}

-- `while True`: pops the stack until the node, which an empty stack does not have.
unfoldable pub pop_until : ℕ → List ℕ → Result (List ℕ × List ℕ)
pop_until v [] = raise index_error
pop_until v (w ∷ stack) =
    let rest = pop_until v stack in
    if w == v then ok (w ∷ [], stack) else (rest >>= λ r. ok (w ∷ r.0, r.1))

unfoldable pub leave_stack : List ℕ → (ℕ → Bool) → ℕ → Bool
unfolding update
leave_stack [] on = on
leave_stack (w ∷ ws) on = leave_stack ws (update w false on)

-- The lowlinks after the parent has taken that of the node.
unfoldable pub raise_parent : List (ℕ × ℕ) → ℕ → (ℕ → ℕ) → ℕ → ℕ
unfolding update
raise_parent [] v low = low
raise_parent ((parent, pos) ∷ calls) v low = update parent (min (low parent) (low v)) low

unfoldable pub is_index : ℕ → Option ℕ → Bool
is_index low none = false
is_index low (some i) = low == i

-- A root takes its component from the stack.
unfoldable pub close_component : List (ℕ × ℕ) → (ℕ → ℕ) → Tarjan → List ℕ × List ℕ → Tarjan
unfolding leave_stack
close_component calls low t (scc, stack) = record {
  index_counter = t.index_counter;
  indices = t.indices;
  lowlinks = low;
  on_stack = leave_stack scc t.on_stack;
  stack = stack;
  sccs = t.sccs ++ scc ∷ [];
  call_stack = calls;
}

unfoldable pub leave : List (ℕ × ℕ) → (ℕ → ℕ) → Tarjan → Tarjan
leave calls low t = record {
  index_counter = t.index_counter;
  indices = t.indices;
  lowlinks = low;
  on_stack = t.on_stack;
  stack = t.stack;
  sccs = t.sccs;
  call_stack = calls;
}

unfoldable pub finish : ℕ → List (ℕ × ℕ) → Tarjan → Result Tarjan
unfolding raise_parent is_index pop_until close_component leave
finish v calls t =
    let low = raise_parent calls v t.lowlinks in
    let popped = pop_until v t.stack in
    if is_index (low v) (t.indices v)
    then (popped >>= λ r. ok (close_component calls low t r))
    else ok (leave calls low t)

-- The next neighbour of the node on top, or its end where it has no more.
unfoldable pub advance : ℕ → ℕ → List (ℕ × ℕ) → Tarjan → ℕ → Option ℕ → Tarjan
unfolding visit back_edge
advance v pos calls t w none = visit w ((w, 0) ∷ (v, suc pos) ∷ calls) t
advance v pos calls t w (some w_index) = back_edge v w w_index ((v, suc pos) ∷ calls) t

unfoldable pub next : ℕ → ℕ → List (ℕ × ℕ) → Tarjan → Option ℕ → Result Tarjan
unfolding advance finish
next v pos calls t (some w) = ok (advance v pos calls t w (t.indices w))
next v pos calls t none = finish v calls t

module _ (adj : Adjacency) where
  -- `while call_stack`, with fuel: none where it is not enough.
  unfoldable pub run : ℕ → List (ℕ × ℕ) → Tarjan → Option (Result Tarjan)
  unfolding next
  run fuel [] t = some (ok t)
  run zero ((v, pos) ∷ calls) t = none
  run (suc fuel) ((v, pos) ∷ calls) t = elim (next v pos calls t (get_elem? (adj v) pos)) [
    | ok t' ↦ run fuel t'.call_stack t'
    | raise e ↦ some (raise e)
  ]

  -- `for start in range(n)`, from a start on.
  unfoldable pub search_from : ℕ → ℕ → ℕ → Tarjan → Option (Result Tarjan)
  unfolding run visit
  search_from fuel zero start t = some (ok t)
  search_from fuel (suc left) start t =
      let skip = search_from fuel left (suc start) t in
      if is_some (t.indices start)
      then skip
      else elim (run fuel ((start, 0) ∷ []) (visit start ((start, 0) ∷ []) t)) [
        | none ↦ none
        | some (ok t') ↦ search_from fuel left (suc start) t'
        | some (raise e) ↦ some (raise e)
      ]

  -- One for each node and each edge.
  unfoldable pub work : ℕ → ℕ
  work zero = 0
  work (suc v) = suc (length (adj v)) + work v

abbrev pub fresh : Tarjan
fresh = record {
  index_counter = 0;
  indices = λ v. none;
  lowlinks = λ v. 0;
  on_stack = λ v. false;
  stack = [];
  sccs = [];
  call_stack = [];
}

-- The strongly connected components, as lists of indices.
unfoldable pub components : List String → List Edge → Option (Result Tarjan)
unfolding search_from work adjacency
components nodes edges =
    let adj = adjacency nodes edges in
    search_from adj (work adj (length nodes)) (length nodes) 0 fresh
