-- ===== src/Resolution/Nodes.antt =====
-- What the indexes hold of the files and the declarations of a graph.
use grackle.Base.{
  ℕ, String, Option, none, some, List, [], ◌∷◌, ◌++◌, ite, if◌then◌else◌, true, ◌≡◌, refl, sym, ap,
  ◌∙◌, arith, subst, Bool-cases, inl, inr,
}
use mathlib.Core.List.{append_assoc, append-nil}
use grackle.Base.Dict.{get, get_default, get_default-put, get-put}
use grackle.Base.Text.{string_key, String_discrete, same_text}
use grackle.Base.Sort.{sorted}
use grackle.Resolution.Index.{
  GraphNode, Wanted, Indexes, no_indexes, is_symbol, add_line, add_name, add_node, add_nodes,
  sort_decls, decl_before, index_graph,
}
use grackle.Resolution.Resolve.{decl_at, resolve_by_decl_line}
use grackle.Resolution.Enclosing.{Nearest, decl_at-Nearest}

-- The declaration that a node is in a file, with its line.
abbrev declared_by : String → GraphNode → Option ℕ → List (ℕ × String)
declared_by posix node none = []
declared_by posix node (some line) = ite (String_discrete node.path posix) ((line, node.id) ∷ []) []

-- The functions and methods of a file that have a line, in the order of the graph.
abbrev pub declared : String → List GraphNode → List (ℕ × String)
declared posix [] = []
declared posix (node ∷ rest) =
    if same_text node.kind "file"
    then declared posix rest
    else if is_symbol node.kind
    then declared_by posix node node.line ++ declared posix rest
    else declared posix rest

-- The id of the last node of kind file with a path.
abbrev pub file_node : String → List GraphNode → Option String
file_node posix [] = none
file_node posix (node ∷ rest) = elim (file_node posix rest) [
  | some id ↦ some id
  | none ↦
      if same_text node.kind "file"
      then ite (String_discrete node.path posix) (some node.id) none
      else none
]

add_name-decl_lines :
    (wanted : Wanted) (node : GraphNode) (name : Option String) (t : Indexes)
    → (add_name wanted node name t).decl_lines ≡ t.decl_lines
unfolding add_name
add_name-decl_lines wanted node none t = refl
add_name-decl_lines wanted node (some String.[]) t = refl
add_name-decl_lines wanted node (some (String.◌∷◌ c s)) t = ground arith

add_name-file_index :
    (wanted : Wanted) (node : GraphNode) (name : Option String) (t : Indexes)
    → (add_name wanted node name t).file_index ≡ t.file_index
unfolding add_name
add_name-file_index wanted node none t = refl
add_name-file_index wanted node (some String.[]) t = refl
add_name-file_index wanted node (some (String.◌∷◌ c s)) t = ground arith

add_line-file_index :
    (wanted : Wanted) (node : GraphNode) (line : Option ℕ) (t : Indexes)
    → (add_line wanted node line t).file_index ≡ t.file_index
unfolding add_line
add_line-file_index wanted node none t = refl
add_line-file_index wanted node (some line) t = refl

put_decl-ite :
    (path posix : String) (q : Dec (path ≡ posix)) (x : List (ℕ × String))
    (m : List (String × List (ℕ × String)))
    → ite q (get_default path [] m ++ x) (get_default posix [] m)
      ≡ get_default posix [] m ++ ite q x []
put_decl-ite path posix (yes p) x m = ap (λ k. get_default k [] m ++ x) p
put_decl-ite path posix (no p) x m = sym (append-nil (get_default posix [] m))

add_line-declared :
    (wanted : Wanted) (node : GraphNode) (line : Option ℕ) (posix : String) (t : Indexes)
    → wanted.decl_index ≡ true
    → get_default posix [] (add_line wanted node line t).decl_lines
      ≡ get_default posix [] t.decl_lines ++ declared_by posix node line
unfolding add_line
add_line-declared wanted node none posix t h = sym (append-nil (get_default posix [] t.decl_lines))
add_line-declared wanted node (some line) posix t h = rw h (
    get_default-put node.path posix []
      (get_default node.path [] t.decl_lines ++ (line, node.id) ∷ []) t.decl_lines
    ∙ put_decl-ite node.path posix (String_discrete node.path posix) ((line, node.id) ∷ [])
        t.decl_lines)

-- The declarations of a file after one more node.
add_node-declared :
    (wanted : Wanted) (node : GraphNode) (posix : String) (rest : List GraphNode) (t : Indexes)
    → wanted.decl_index ≡ true
    → get_default posix [] (add_node wanted node t).decl_lines ++ declared posix rest
      ≡ get_default posix [] t.decl_lines ++ declared posix (node ∷ rest)
unfolding add_node
add_node-declared wanted node posix rest t h = elim (Bool-cases (same_text node.kind "file")) [
  | inl f ↦ rw f refl
  | inr f ↦ elim (Bool-cases (is_symbol node.kind)) [
    | inr k ↦ rw (f, k) refl
    | inl k ↦
        rw (f, k)
          (ap (λ m. get_default posix [] m ++ declared posix rest)
              (add_name-decl_lines wanted node node.name (add_line wanted node node.line t))
            ∙ (ap (λ m. m ++ declared posix rest)
                  (add_line-declared wanted node node.line posix t h)
                ∙ append_assoc (get_default posix [] t.decl_lines)
                    (declared_by posix node node.line) (declared posix rest)))
  ]
]

add_nodes-declared :
    (wanted : Wanted) (nodes : List GraphNode) (posix : String) (t : Indexes)
    → wanted.decl_index ≡ true
    → get_default posix [] (add_nodes wanted nodes t).decl_lines
      ≡ get_default posix [] t.decl_lines ++ declared posix nodes
unfolding add_nodes
add_nodes-declared wanted [] posix t h = sym (append-nil (get_default posix [] t.decl_lines))
add_nodes-declared wanted (node ∷ rest) posix t h =
    add_nodes-declared wanted rest posix (add_node wanted node t) h
    ∙ add_node-declared wanted node posix rest t h

get-sort_decls :
    (posix : String) (m : List (String × List (ℕ × String)))
    → get_default posix [] (sort_decls m) ≡ sorted decl_before (get_default posix [] m)
unfolding sort_decls get sorted
get-sort_decls posix [] = refl
get-sort_decls posix ((path, pairs) ∷ rest) =
    elim (String_discrete path posix)
      as (λ q.
        (elim (ite q (some (sorted decl_before pairs)) (get posix (sort_decls rest)))
          as (λ _. List (ℕ × String)) [ none ↦ [] | some v ↦ v ])
        ≡ sorted decl_before
            (elim (ite q (some pairs) (get posix rest)) as (λ _. List (ℕ × String)) [
              | none ↦ []
              | some v ↦ v
            ])) [ yes p ↦ refl | no p ↦ get-sort_decls posix rest ]

-- The lookup by declaration lines gives the nearest of the declarations of the file.
pub resolve_by_decl_line-Nearest :
    (wanted : Wanted) (nodes : List GraphNode) (posix : String) (line : ℕ)
    → wanted.decl_index ≡ true
    → Nearest line
        (declared posix nodes)
        (resolve_by_decl_line (index_graph wanted nodes) posix line)
unfolding resolve_by_decl_line index_graph
resolve_by_decl_line-Nearest wanted nodes posix line h =
    subst (λ ps. Nearest line (declared posix nodes) (decl_at line ps))
      (sym (
        get-sort_decls posix (add_nodes wanted nodes no_indexes).decl_lines
        ∙ ap (sorted decl_before) (add_nodes-declared wanted nodes posix no_indexes h)))
      (decl_at-Nearest line (declared posix nodes))

-- A file that a later node gives, or else the one that there is.
abbrev later : Option String → Option String → Option String
later (some id) o = some id
later none o = o

add_node-file_node :
    (wanted : Wanted) (node : GraphNode) (posix : String) (rest : List GraphNode) (t : Indexes)
    → later (file_node posix rest) (get posix (add_node wanted node t).file_index)
      ≡ later (file_node posix (node ∷ rest)) (get posix t.file_index)
unfolding add_node
add_node-file_node wanted node posix rest t = ground (
  arith,
  get-put node.path posix node.id t.file_index,
  add_name-file_index wanted node node.name (add_line wanted node node.line t),
  add_line-file_index wanted node node.line t,
)

add_nodes-file_node :
    (wanted : Wanted) (nodes : List GraphNode) (posix : String) (t : Indexes)
    → get posix (add_nodes wanted nodes t).file_index
      ≡ later (file_node posix nodes) (get posix t.file_index)
unfolding add_nodes
add_nodes-file_node wanted [] posix t = refl
add_nodes-file_node wanted (node ∷ rest) posix t =
    add_nodes-file_node wanted rest posix (add_node wanted node t)
    ∙ add_node-file_node wanted node posix rest t

later-none : (o : Option String) → later o none ≡ o
later-none none = refl
later-none (some id) = refl

-- The index of files has the last node of kind file with the path.
pub file_index-file_node :
    (wanted : Wanted) (nodes : List GraphNode) (posix : String)
    → get posix (index_graph wanted nodes).file_index ≡ file_node posix nodes
unfolding index_graph get
file_index-file_node wanted nodes posix =
    add_nodes-file_node wanted nodes posix no_indexes ∙ later-none (file_node posix nodes)
