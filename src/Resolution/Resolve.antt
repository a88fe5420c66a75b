-- ===== src/Resolution/Resolve.antt =====
-- packages/agent/src/grackle/adapters/runtime_resolution.py: the lookups, over a normalisation of source
-- identifiers that the operating system's paths decide; and the resolvers of
-- python_runtime/node_resolution.py, go_runtime/resolution.py and rust_runtime/resolution.py.
use grackle.Base.{
  not, ℕ, zero, suc, String, Option, none, some, List, [], ◌∷◌, Bool, false, ltb, ◌==◌,
  if◌then◌else◌, get_or,
}
use Prim.Native.Char.{code}
use grackle.Base.Dict.{number_key, pair_key, get, put, get_default}
use grackle.Base.Text.{string_key, same_text}
use grackle.Base.Bisect.{bisect_right}
use grackle.Resolution.Index.{Indexes}

-- `NOT_PROJECT` and `UNRESOLVED`
abbrev pub not_project : String
not_project = ""

abbrev pub unresolved : String
unresolved = "<unresolved>"

-- `NOT_PROJECT if result is None else result`
abbrev pub normalised : Option String → String
normalised none = not_project
normalised (some posix) = posix

module _ (normalize : String → Option String) where
  -- `_cached_normalize`, with the cache after it.
  unfoldable pub cached_normalize :
      List (String × String) → String → String × List (String × String)
  unfolding get put
  cached_normalize cache identifier = elim (get identifier cache) [
    | some cached ↦ (cached, cache)
    | none ↦ (
      normalised (normalize identifier),
      put identifier (normalised (normalize identifier)) cache,
    )
  ]

  -- `_is_project`
  unfoldable pub is_project : List (String × String) → String → Bool
  unfolding cached_normalize
  is_project cache identifier = not (same_text (cached_normalize cache identifier).0 not_project)

-- `_sym_index.get((posix, line))`, where an ambiguous line and a missing one both read as None.
unfoldable pub symbol_at : Indexes → String → ℕ → Option String
unfolding get
symbol_at t posix line = get_default (posix, line) none t.sym_index

-- `pairs[idx][1]` at idx = n - 1, and None below 0.
abbrev pub id_before : ℕ → List (ℕ × String) → Option String
id_before zero pairs = none
id_before (suc idx) pairs = some (get_or pairs idx (0, "")).1

-- `_resolve_by_decl_line` on the declarations of a file.
unfoldable pub decl_at : ℕ → List (ℕ × String) → Option String
unfolding bisect_right
decl_at line [] = none
decl_at line (p ∷ pairs) = id_before (bisect_right (λ q. ltb line q.0) (p ∷ pairs)) (p ∷ pairs)

unfoldable pub resolve_by_decl_line : Indexes → String → ℕ → Option String
unfolding decl_at get
resolve_by_decl_line t posix line = decl_at line (get_default posix [] t.decl_lines)

-- `name.rsplit(".", 1)[-1]` where there is a dot.
unfoldable pub after_last_dot : String → Option String
after_last_dot String.[] = none
after_last_dot (String.◌∷◌ c s) = elim (after_last_dot s) [
  | some tail ↦ some tail
  | none ↦ if code c == 46 then some s else none
]

unfoldable pub name_at : Indexes → String → String → Option String
unfolding get
name_at t posix name = get_default (posix, name) none t.name_index

-- `_resolve_by_name`
unfoldable pub resolve_by_name : Indexes → String → Option String → Option String
unfolding name_at after_last_dot
resolve_by_name t posix none = none
resolve_by_name t posix (some String.[]) = none
resolve_by_name t posix (some name) = elim (name_at t posix name) [
  | some id ↦ some id
  | none ↦ elim (after_last_dot name) [ none ↦ none | some tail ↦ name_at t posix tail ]
]

-- `file_id if file_id is not None else UNRESOLVED`
unfoldable pub file_or_unresolved : Indexes → String → String
unfolding get
file_or_unresolved t posix = get_default posix unresolved t.file_index

-- The first of the lookups that answers, and the file.
abbrev pub or_file : Indexes → String → Option String → String
or_file t posix none = file_or_unresolved t posix
or_file t posix (some id) = id

abbrev pub or_else : Option String → Option String → Option String
or_else none b = b
or_else (some a) b = some a

module _ (normalize : String → Option String) (t : Indexes) where
  -- `NodeResolver.resolve` of the Python runtime.
  unfoldable pub resolve :
      List (String × String) → String → ℕ → Option String → String × List (String × String)
  unfolding cached_normalize symbol_at file_or_unresolved
  resolve cache co_filename co_firstlineno co_name =
      let (posix, cache') = cached_normalize normalize cache co_filename in
      (
        if same_text posix not_project
            then unresolved
            else if elim co_name [ none ↦ false | some name ↦ same_text name "<module>" ]
            then file_or_unresolved t posix
            else or_file t posix (symbol_at t posix co_firstlineno),
        cache',
      )

  -- `GoResolver.resolve_block` and `RustResolver.resolve_function`.
  unfoldable pub resolve_block :
      List (String × String) → String → ℕ → Option String × List (String × String)
  unfolding cached_normalize symbol_at resolve_by_decl_line file_or_unresolved
  resolve_block cache identifier line =
      let (posix, cache') = cached_normalize normalize cache identifier in
      (
        if same_text posix not_project
            then none
            else some (
                or_file t posix
                  (or_else (symbol_at t posix line) (resolve_by_decl_line t posix line))),
        cache',
      )
