-- ===== src/Resolution/Index.antt =====
-- packages/agent/src/grackle/adapters/runtime_resolution.py: the indexes over the static graph. Lines
-- are natural numbers.
use grackle.Base.{
  ℕ, String, Option, none, some, List, [], ◌∷◌, ◌++◌, Bool, ◌||◌, ite, if◌then◌else◌,
}
use grackle.Base.Dict.{Keyed, number_key, pair_key, get, put, get_default}
use grackle.Base.Text.{string_key, String_discrete, same_text, rank_then_text}
use grackle.Base.Sort.{sorted}

-- The fields of a node of the graph that the index reads.
pub record GraphNode : Type 0 where
  pub id : String
  pub kind : String
  pub path : String
  pub line : Option ℕ
  pub name : Option String

pub record Indexes : Type 0 where
  pub sym_index : List ((String × ℕ) × Option String)
  pub file_index : List (String × String)
  pub name_index : List ((String × String) × Option String)
  pub decl_lines : List (String × List (ℕ × String))

abbrev pub no_indexes : Indexes
no_indexes = record { sym_index = []; file_index = []; name_index = []; decl_lines = [] }

-- `_index_unique`: the value is none where two nodes claim the key.
unfoldable pub index_unique_at : Option (Option String) → String → Option (Option String)
unfolding String_discrete
index_unique_at none node_id = some (some node_id)
index_unique_at (some none) node_id = some none
index_unique_at (some (some other)) node_id =
    ite (String_discrete other node_id) (some (some other)) (some none)

unfoldable pub index_unique :
    {K : Type 0} → ⦃d : Keyed K⦄ → K → String → List (K × Option String) → List (K × Option String)
unfolding get put index_unique_at
index_unique key node_id m = elim (index_unique_at (get key m) node_id) [
  | none ↦ m
  | some v ↦ put key v m
]

-- Which of the optional indexes a subclass builds.
pub record Wanted : Type 0 where
  pub name_index : Bool
  pub decl_index : Bool

abbrev pub is_symbol : String → Bool
is_symbol kind = same_text kind "function" || same_text kind "method"

unfoldable pub add_line : Wanted → GraphNode → Option ℕ → Indexes → Indexes
unfolding index_unique get put
add_line wanted node none t = t
add_line wanted node (some line) t = record t {
  sym_index = index_unique (node.path, line) node.id t.sym_index;
  decl_lines =
      if wanted.decl_index
      then put node.path (get_default node.path [] t.decl_lines ++ (line, node.id) ∷ [])
          t.decl_lines
      else t.decl_lines;
}

unfoldable pub add_name : Wanted → GraphNode → Option String → Indexes → Indexes
unfolding index_unique
add_name wanted node none t = t
add_name wanted node (some String.[]) t = t
add_name wanted node (some name) t =
    if wanted.name_index
    then record t { name_index = index_unique (node.path, name) node.id t.name_index }
    else t

-- The body of the loop over the nodes.
unfoldable pub add_node : Wanted → GraphNode → Indexes → Indexes
unfolding put add_line add_name
add_node wanted node t =
    if same_text node.kind "file"
    then record t { file_index = put node.path node.id t.file_index }
    else if is_symbol node.kind
    then add_name wanted node node.name (add_line wanted node node.line t)
    else t

unfoldable pub add_nodes : Wanted → List GraphNode → Indexes → Indexes
unfolding add_node
add_nodes wanted [] t = t
add_nodes wanted (node ∷ rest) t = add_nodes wanted rest (add_node wanted node t)

-- The order of tuples (line, id), by which `pairs.sort()` goes.
unfoldable pub decl_before : ℕ × String → ℕ × String → Bool
decl_before (m, s) (n, t) = rank_then_text m n s t

unfoldable pub sort_decls : List (String × List (ℕ × String)) → List (String × List (ℕ × String))
unfolding sorted decl_before
sort_decls [] = []
sort_decls ((path, pairs) ∷ rest) = (path, sorted decl_before pairs) ∷ sort_decls rest

-- `__init__`
unfoldable pub index_graph : Wanted → List GraphNode → Indexes
unfolding add_nodes sort_decls
index_graph wanted nodes =
    let t = add_nodes wanted nodes no_indexes in record t { decl_lines = sort_decls t.decl_lines }
