-- ===== src/Resolution/Cache.antt =====
-- The cache of normalised identifiers changes no answer.
use grackle.Base.{
  if◌then◌else◌, ℕ, String, Option, none, some, List, false, true, arith, ◌≡◌, refl, ap, ◌∙◌,
  Option-cases, inl, inr,
}
use grackle.Base.Dict.{get, put, get-put}
use grackle.Base.Text.{string_key, same_text}
use grackle.Resolution.Index.{GraphNode, Wanted, index_graph}
use grackle.Resolution.Resolve.{
  not_project, unresolved, normalised, cached_normalize, resolve_by_decl_line, file_or_unresolved,
  or_file, or_else, resolve, resolve_block,
}
use grackle.Resolution.Enclosing.{Nearest}
use grackle.Resolution.Nodes.{
  declared, file_node, resolve_by_decl_line-Nearest, file_index-file_node,
}
use grackle.Resolution.Claims.{claimants, sole, symbol_at-sole}

-- The sole claimant of the line, the nearest declaration, the file, in this order.
abbrev pub first_of : Option String → Option String → Option String → String
first_of (some id) nearest file = id
first_of none (some id) file = id
first_of none none (some id) = id
first_of none none none = unresolved

file-first_of :
    (o : Option String) → (elim o [ none ↦ unresolved | some id ↦ id ]) ≡ first_of none none o
file-first_of none = refl
file-first_of (some id) = refl

or_file-first_of :
    (wanted : Wanted) (nodes : List GraphNode) (posix : String) (s n : Option String)
    → or_file (index_graph wanted nodes) posix (or_else s n) ≡ first_of s n (file_node posix nodes)
unfolding file_or_unresolved
or_file-first_of wanted nodes posix (some id) n = refl
or_file-first_of wanted nodes posix none (some id) = refl
or_file-first_of wanted nodes posix none none =
    ap (λ o. elim o [ none ↦ unresolved | some id ↦ id ]) (file_index-file_node wanted nodes posix)
    ∙ file-first_of (file_node posix nodes)

module _ (normalize : String → Option String) where
  -- Each entry is the normalisation of its key.
  abbrev pub Cached : List (String × String) → Type 0
  Cached cache =
      (key posix : String) → get key cache ≡ some posix → posix ≡ normalised (normalize key)

  Cached-put :
      (identifier : String) (cache : List (String × String))
      → Cached cache
      → Cached (put identifier (normalised (normalize identifier)) cache)
  Cached-put identifier cache h key posix e =
      ground (arith, get-put identifier key (normalised (normalize identifier)) cache, h key posix)

  cached_normalize-Cached :
      (cache : List (String × String)) (identifier : String)
      → Cached cache
      → ((cached_normalize normalize cache identifier).0 ≡ normalised (normalize identifier))
        × Cached (cached_normalize normalize cache identifier).1
  unfolding cached_normalize
  cached_normalize-Cached cache identifier h = elim (Option-cases (get identifier cache)) [
    | inl e ↦ rw (e, cached_normalize) (refl, Cached-put identifier cache h)
    | inr (posix, e) ↦ rw (e, cached_normalize) (h identifier posix e, h)
  ]

  -- The answer of the Go and Rust resolvers, given the nearest declaration.
  abbrev pub block_of : List GraphNode → String → ℕ → Option String → Option String
  block_of nodes posix line nearest =
      if same_text posix not_project
      then none
      else some (first_of (sole (claimants (posix, line) nodes)) nearest (file_node posix nodes))

  -- With any cache that earlier calls left and an index of the declarations, a block resolves to the one
  -- function or method of the graph that starts at the line, where there is one; else to a declaration of the
  -- file at or above the line below which no other starts there; else, where every declaration of the file
  -- starts below the line, to the last node of kind file with the path; else to the mark of an unresolved
  -- position. An identifier outside of the project gives none. The cache stays right.
  pub resolve_block-Cached :
      (wanted : Wanted) (nodes : List GraphNode) (cache : List (String × String))
      (identifier : String) (line : ℕ)
      → wanted.decl_index ≡ true
      → Cached cache
      → let posix = normalised (normalize identifier) in
        let r = resolve_block normalize (index_graph wanted nodes) cache identifier line in
        (nearest : Option String) × Nearest line (declared posix nodes) nearest
        × (r.0 ≡ block_of nodes posix line nearest)
        × Cached r.1
  unfolding resolve_block
  resolve_block-Cached wanted nodes cache identifier line on h =
      let posix = normalised (normalize identifier) in
      let (e, valid) = cached_normalize-Cached cache identifier h in
      (
        resolve_by_decl_line (index_graph wanted nodes) posix line,
        resolve_by_decl_line-Nearest wanted nodes posix line on,
        rw (e, symbol_at-sole, or_file-first_of wanted nodes) refl,
        valid,
      )

  -- The answer of the Python resolver.
  abbrev pub frame_of : Wanted → List GraphNode → String → ℕ → Option String → String
  frame_of wanted nodes posix line co_name =
      if same_text posix not_project
      then unresolved
      else if elim co_name [ none ↦ false | some name ↦ same_text name "<module>" ]
      then file_or_unresolved (index_graph wanted nodes) posix
      else or_file (index_graph wanted nodes) posix (sole (claimants (posix, line) nodes))

  -- With any cache that earlier calls left, a frame resolves to the one function or method that
  -- starts at its first line, and to the file for the code of a module or where no node or more
  -- than one starts there. The cache stays right.
  resolve-Cached :
      (wanted : Wanted) (nodes : List GraphNode) (cache : List (String × String))
      (co_filename : String) (line : ℕ) (co_name : Option String)
      → Cached cache
      → ((resolve normalize (index_graph wanted nodes) cache co_filename line co_name).0
          ≡ frame_of wanted nodes (normalised (normalize co_filename)) line co_name)
        × Cached (resolve normalize (index_graph wanted nodes) cache co_filename line co_name).1
  unfolding resolve
  resolve-Cached wanted nodes cache co_filename line co_name h =
      let (e, valid) = cached_normalize-Cached cache co_filename h in
      (rw (e, symbol_at-sole) refl, valid)
