-- ===== src/Profile/Tree.antt =====
-- packages/agent/src/grackle/node_runtime/profile_reconstruct.py: the call tree, and the filtered
-- stack of a tree node with its cache. The ids that V8 gives are natural numbers.
use grackle.Base.{
  ℕ, zero, suc, ◌==◌, ◌||◌, String, Option, none, some, List, [], ◌∷◌, ◌++◌, Bool, true, false,
  length,
}
use grackle.Base.Dict.{number_key, get, put, get_default}

-- A node of the profile: none is an id that int() refuses, or a frame that is missing.
pub record ProfileNode (Frame : Type 0) : Type 0 where
  pub id : Option ℕ
  pub call_frame : Option Frame
  pub children : List ℕ

-- A filtered stack, root first: tree ids with their graph ids.
abbrev pub Stack : Type 0
Stack = List (ℕ × String)

abbrev pub among : ℕ → List ℕ → Bool
among k [] = false
among k (j ∷ js) = k == j || among k js

-- The loop over the children of one node.
unfoldable pub adopt : ℕ → List ℕ → List (ℕ × Option ℕ) → List (ℕ × Option ℕ)
unfolding get put
adopt nid [] m = m
adopt nid (cid ∷ rest) m = elim (get cid m) [
  | none ↦ adopt nid rest m
  | some _ ↦ adopt nid rest (put cid (some nid) m)
]

module _ {Frame : Type 0} where
  unfoldable pub index_nodes :
      List (ProfileNode Frame) → List (ℕ × ProfileNode Frame) → List (ℕ × ProfileNode Frame)
  unfolding put
  index_nodes [] m = m
  index_nodes (node ∷ rest) m = elim node.id [
    | none ↦ index_nodes rest m
    | some id ↦ index_nodes rest (put id node m)
  ]

  -- `dict.fromkeys(nodes_by_id, None)`
  unfoldable pub no_parents : List (ℕ × ProfileNode Frame) → List (ℕ × Option ℕ)
  no_parents [] = []
  no_parents ((id, node) ∷ rest) = (id, none) ∷ no_parents rest

  unfoldable pub adopt_all :
      List (ℕ × ProfileNode Frame) → List (ℕ × Option ℕ) → List (ℕ × Option ℕ)
  unfolding adopt
  adopt_all [] m = m
  adopt_all ((nid, node) ∷ rest) m = adopt_all rest (adopt nid node.children m)

  unfoldable pub build_parents : List (ℕ × ProfileNode Frame) → List (ℕ × Option ℕ)
  unfolding no_parents adopt_all
  build_parents nodes = adopt_all nodes (no_parents nodes)

-- `parent_of.get(cur)`
unfoldable pub parent : List (ℕ × Option ℕ) → ℕ → Option ℕ
unfolding get
parent parent_of cur = get_default cur none parent_of

-- The walk up to a cached ancestor, a root or a node already seen. `pending` holds the nodes seen,
-- the last one first; none is a walk that runs out of fuel.
unfoldable pub climb :
    List (ℕ × Option ℕ) → List (ℕ × Stack) → ℕ → Option ℕ → List ℕ → Option (List ℕ × Stack)
unfolding parent get
climb parent_of cache fuel none pending = some (pending, [])
climb parent_of cache zero (some cur) pending = none
climb parent_of cache (suc fuel) (some cur) pending = elim (among cur pending) [
  | true ↦ some (pending, [])
  | false ↦ elim (get cur cache) [
    | some hit ↦ some (pending, hit)
    | none ↦ climb parent_of cache fuel (parent parent_of cur) (cur ∷ pending)
  ]
]

module _ {Frame : Type 0} (resolve : Frame → Option String)
    (nodes : List (ℕ × ProfileNode Frame)) where
  unfoldable pub frame_id : ℕ → Option Frame → Option (ℕ × String)
  frame_id tid none = none
  frame_id tid (some frame) = elim (resolve frame) [
    | none ↦ none
    | some grackle_id ↦ some (tid, grackle_id)
  ]

  -- `own`: the entry of a tree node in its stack.
  unfoldable pub own : ℕ → Option (ℕ × String)
  unfolding get frame_id
  own tid = elim (get tid nodes) [ none ↦ none | some node ↦ frame_id tid node.call_frame ]

  unfoldable pub extended : Stack → ℕ → Stack
  unfolding own
  extended base tid = elim (own tid) [ none ↦ base | some o ↦ base ++ o ∷ [] ]

  -- `for tid in reversed(pending)`: the cache after it.
  unfoldable pub extend : List ℕ → Stack → List (ℕ × Stack) → List (ℕ × Stack)
  unfolding extended put
  extend [] base cache = cache
  extend (tid ∷ rest) base cache =
      extend rest (extended base tid) (put tid (extended base tid) cache)

  -- The path of a node, and the cache after the call. Fuel for each node of the tree, and two more.
  unfoldable pub filtered_path :
      List (ℕ × Option ℕ) → List (ℕ × Stack) → ℕ → Option (Stack × List (ℕ × Stack))
  unfolding climb extend get
  filtered_path parent_of cache node_id = elim (get node_id cache) [
    | some cached ↦ some (cached, cache)
    | none ↦ elim (climb parent_of cache (suc (suc (length parent_of))) (some node_id) []) [
      | none ↦ none
      | some (pending, base) ↦
          let cache' = extend pending base cache in
          elim (get node_id cache') [ none ↦ none | some path ↦ some (path, cache') ]
    ]
  ]
