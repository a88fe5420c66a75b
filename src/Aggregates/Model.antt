-- ===== src/Aggregates/Model.antt =====
-- What a trace says, with no index: sums and counts over its events. The other modules prove that
-- the tables answer by these.
use grackle.Base.{
  false, Bool, true, Option, ◌≡◌, ℕ, suc, ◌+◌, String, none, some, List, [], ◌∷◌, ◌&&◌, ltb,
  if◌then◌else◌, ite,
}
use grackle.Base.Text.{String_discrete}
use grackle.Base.Result.{Result, ok, ◌>>=◌}
use grackle.Json.{Json}
use grackle.Aggregates.Event.{Event, decode_event}
use grackle.Aggregates.Tables.{Tables, start, note, recorded}
use grackle.Aggregates.Build.{Aggregates, of_tables, strip}

-- The weight of one event for a node.
abbrev pub weight_for : String → Event → ℕ
weight_for node_id (none, count) = 0
weight_for node_id (some nid, count) = ite (String_discrete nid node_id) count 0

-- The total weight of a node's events from position `i` on that stand before `at_index`.
abbrev pub heat_between : String → ℕ → ℕ → List Event → ℕ
heat_between node_id at_index i [] = 0
heat_between node_id at_index i (e ∷ es) =
    (if ltb i at_index then weight_for node_id e else 0) + heat_between node_id at_index (suc i) es

-- The same sum over the positions that a sparse index records.
abbrev pub sparse_between : ℕ → String → ℕ → ℕ → List Event → ℕ
sparse_between k node_id at_index i [] = 0
sparse_between k node_id at_index i (e ∷ es) =
    (if recorded k i && ltb i at_index then weight_for node_id e else 0)
    + sparse_between k node_id at_index (suc i) es

-- The events of the file: what the loop reads from each line that is not blank.
module _ (loads : List ℕ → Result (Option Json)) where
  abbrev pub events : List (List ℕ) → Result (List Event)
  events [] = ok []
  events (raw ∷ rest) = elim (strip raw) [
    | [] ↦ events rest
    | c ∷ s ↦ do event ← (loads (c ∷ s) >>= decode_event); others ← events rest; ok (event ∷ others)
  ]

abbrev pub notes : ℕ → List Event → Tables → Tables
notes k [] t = t
notes k (e ∷ es) t = notes k es (note k e t)

-- The aggregates of a sequence of events.
abbrev pub tabulate : ℕ → List Event → Aggregates
tabulate k es = of_tables k (notes k es start)

-- Positions that a sparse index does not record hold no event of the node.
abbrev pub OffGrid : ℕ → String → ℕ → List Event → Type 0
OffGrid k node_id i [] = Unit
OffGrid k node_id i (e ∷ es) =
    (recorded k i ≡ true → weight_for node_id e ≡ 0) × OffGrid k node_id (suc i) es

abbrev pub contains : String → List String → Bool
contains k [] = false
contains k (j ∷ js) = ite (String_discrete j k) true (contains k js)

-- How many ids the events bring in that are not among those seen.
abbrev pub distinct : List String → List Event → ℕ
distinct seen [] = 0
distinct seen ((none, count) ∷ es) = distinct seen es
distinct seen ((some nid, count) ∷ es) =
    if contains nid seen then distinct seen es else suc (distinct (nid ∷ seen) es)
