-- ===== src/Profile/Tests.antt =====
-- packages/agent/src/grackle/node_runtime/profile_reconstruct.py: a concrete profile, and the theorems
-- on it.
use grackle.Base.{ℕ, ◌≡◌, refl, String, Option, none, some, List, [], ◌∷◌, length}
use mathlib.Core.Option.{map as map_option}
use native.Mathlib.Decide.{ℕ_discrete}
use grackle.Base.Dict.{get}
use grackle.Base.Int.{pos}
use grackle.Profile.Tree.{
  parent, extended, ProfileNode, Stack, build_parents, index_nodes, filtered_path,
}
use grackle.Profile.Stream.{Profile, TraceEvent, reconstruct}
use grackle.Profile.Replay.{replay}
use grackle.Profile.Balance.{reconstruct-balanced}
use grackle.Profile.Cached.{PathOf, Right, filtered_path-PathOf}

-- Frames by their graph id, none where the frame is outside of the project.
abbrev resolve : Option String → Option String
resolve frame = frame

abbrev frame : ℕ → Option String → List ℕ → ProfileNode (Option String)
frame id f children = record { id = some id; call_frame = some f; children = children }

-- A root outside of the project, `f` below it, and `g` and `h` below `f`.
abbrev raw_nodes : List (ProfileNode (Option String))
raw_nodes =
    frame 1 none (2 ∷ [])
    ∷ frame 2 (some "f") (3 ∷ 4 ∷ [])
    ∷ frame 3 (some "g") []
    ∷ frame 4 (some "h") []
    ∷ []

abbrev profile : Profile (Option String)
profile = record {
  nodes = raw_nodes;
  samples = 3 ∷ 9 ∷ 4 ∷ 1 ∷ [];
  time_deltas = pos 5 ∷ pos 1 ∷ pos 2 ∷ [];
  start_time = some (pos 10);
  end_time = none;
}

six_events : map_option length (reconstruct resolve profile) ≡ some 6
unfolding reconstruct ℕ_discrete
six_events = refl

reconstruct-balanced_example :
    (events : List TraceEvent) × (reconstruct resolve profile ≡ some events)
    × (replay events [] ≡ some [])
reconstruct-balanced_example = reconstruct-balanced resolve profile

abbrev nodes : List (ℕ × ProfileNode (Option String))
nodes = index_nodes raw_nodes []

abbrev parents : List (ℕ × Option ℕ)
parents = build_parents nodes

depth_of_g : PathOf resolve nodes parents 2 3 ((2, "f") ∷ (3, "g") ∷ [])
unfolding parent build_parents index_nodes ℕ_discrete extended
depth_of_g = (2, (2, "f") ∷ [], refl, (1, [], refl, (refl, refl), refl), refl)

no_entries : Right resolve nodes parents []
unfolding get
no_entries j k h = absurd (cc h)

filtered_path-PathOf_example :
    (cache' : List (ℕ × Stack)) × (filtered_path resolve nodes parents [] 3
      ≡ some ((2, "f") ∷ (3, "g") ∷ [], cache'))
    × Right resolve nodes parents cache'
filtered_path-PathOf_example =
    filtered_path-PathOf resolve nodes parents 2 3 ((2, "f") ∷ (3, "g") ∷ []) [] depth_of_g
      no_entries
