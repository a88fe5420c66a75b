-- ===== src/Resolution/Tests.antt =====
-- packages/agent/src/grackle/adapters/runtime_resolution.py: a concrete graph, and the theorems on it.
use grackle.Base.{refl, ◌≡◌, String, Option, none, some, List, [], ◌∷◌, true, false}
use grackle.Base.Dict.{get}
use grackle.Base.Text.{string_key}
use grackle.Base.Sort.{sorted}
use grackle.Resolution.Index.{GraphNode, Wanted, decl_before, index_graph}
use grackle.Resolution.Resolve.{normalised, decl_at, resolve_block}
use grackle.Resolution.Enclosing.{Nearest, decl_at-Nearest}
use grackle.Resolution.Nodes.{declared}
use grackle.Resolution.Cache.{Cached, block_of, resolve_block-Cached}

-- A file with `f` and `g`, which both start at line 3, and `h` at line 7.
abbrev nodes : List GraphNode
nodes =
    record { id = "m"; kind = "file"; path = "m.go"; line = none; name = some "m.go" }
    ∷ record { id = "m:f"; kind = "function"; path = "m.go"; line = some 3; name = some "f" }
    ∷ record { id = "m:g"; kind = "method"; path = "m.go"; line = some 3; name = some "g" }
    ∷ record { id = "m:h"; kind = "function"; path = "m.go"; line = some 7; name = some "h" }
    ∷ []

abbrev wanted : Wanted
wanted = record { name_index = false; decl_index = true }

-- Every identifier is a path of the project.
abbrev normalize : String → Option String
normalize s = some s

no_entries : Cached normalize []
unfolding get
no_entries key posix e = cc

decl_at-Nearest_example :
    Nearest 8
      ((7, "m:h") ∷ (3, "m:f") ∷ [])
      (decl_at 8 (sorted decl_before ((7, "m:h") ∷ (3, "m:f") ∷ [])))
decl_at-Nearest_example = decl_at-Nearest 8 ((7, "m:h") ∷ (3, "m:f") ∷ [])

resolve_block-Cached_example :
    let r = resolve_block normalize (index_graph wanted nodes) [] "m.go" 9 in
    (nearest : Option String) × Nearest 9 (declared (normalised (normalize "m.go")) nodes) nearest
    × (r.0 ≡ block_of normalize nodes (normalised (normalize "m.go")) 9 nearest)
    × Cached normalize r.1
resolve_block-Cached_example =
    resolve_block-Cached normalize wanted nodes [] "m.go" 9 refl no_entries
