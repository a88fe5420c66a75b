-- ===== src/Aggregates/Tests.antt =====
-- packages/agent/src/grackle/python_runtime/aggregates.py: concrete traces, and the theorems on them.
use grackle.Base.{
  ℕ, ◌≡◌, refl, String, Option, none, some, ◌==◌, List, [], ◌∷◌, false, if◌then◌else◌, take,
}
use grackle.Base.Int.{pos}
use grackle.Base.Text.{String_discrete}
use grackle.Base.Result.{ok, ◌>>=◌, Result, raise, recursion_error}
use grackle.Json.{Json, int, str, obj, arr, nil, end, field}
use grackle.Jsonl.{build_index}
use grackle.Aggregates.Event.{Event, decode_event}
use grackle.Aggregates.Tables.{note}
use grackle.Aggregates.Build.{strip, of_tables, Aggregates, Source, build, clamp_k}
use grackle.Aggregates.Query.{cumulative_heat, rounded, coverage_count, top_k}
use grackle.Aggregates.Model.{heat_between, sparse_between, events, tabulate, distinct}
use grackle.Aggregates.Scan.{heat-build}
use grackle.Aggregates.Coverage.{coverage_distinct}
use grackle.Aggregates.TopK.{Best, top_k-Best}
use grackle.Aggregates.Seekable.{build_seekable, seekable-builds}

-- A decoder of four lines: `a` is an event of the node A, `b` one of B with a count of 3, `e` an
-- event with no id, `l` a list; `d` is nested too deeply. Other lines do not decode.
abbrev pub loads : List ℕ → Result (Option Json)
loads (c ∷ []) =
    if c == 97
    then ok (some (obj (field "node_id" (str "A") end)))
    else if c == 98
    then ok (
        some (
          obj (
            field "node_id" (str "B")
              (field "metadata" (obj (field "count" (int (pos 3)) end)) end))))
    else if c == 101
    then ok (some (obj end))
    else if c == 108
    then ok (some (arr nil))
    else if c == 100
    then raise recursion_error
    else ok none
loads _ = ok none

-- The lines `a`, ` b `, a blank one, one that does not decode, `e`, `b` and `a`.
abbrev pub trace_lines : List (List ℕ)
trace_lines =
    (97 ∷ 10 ∷ [])
    ∷ (32 ∷ 98 ∷ 32 ∷ 10 ∷ [])
    ∷ (32 ∷ 10 ∷ [])
    ∷ (120 ∷ 10 ∷ [])
    ∷ (101 ∷ 13 ∷ 10 ∷ [])
    ∷ (98 ∷ 10 ∷ [])
    ∷ (97 ∷ [])
    ∷ []

abbrev trace : Source
trace = record { lines = trace_lines; failed = false }

abbrev pub trace_events : List Event
trace_events =
    (some "A", 1) ∷ (some "B", 3) ∷ (none, 1) ∷ (none, 1) ∷ (some "B", 3) ∷ (some "A", 1) ∷ []

read_events : events loads trace_lines ≡ ok trace_events
unfolding strip decode_event
read_events = refl

heat-build_example :
    (a : Aggregates) × (build loads trace 0 ≡ ok a)
    × ((node_id : String) (at_index : ℕ)
        → cumulative_heat a node_id at_index
          ≡ sparse_between (clamp_k 0) node_id (rounded (clamp_k 0) at_index) 0 trace_events)
heat-build_example = heat-build loads trace 0 trace_events read_events

-- At sparse_k 2 the two events of B at the positions 1 and 3 leave no heat, though the exact heat
-- is 6.
abbrev off_grid : List Event
off_grid = (some "A", 1) ∷ (some "B", 3) ∷ (some "A", 1) ∷ (some "B", 3) ∷ []

off_grid_exact : heat_between "B" 4 0 off_grid ≡ 6
unfolding String_discrete
off_grid_exact = refl

off_grid_lost : cumulative_heat (tabulate 2 off_grid) "B" 4 ≡ 0
unfolding String_discrete cumulative_heat of_tables note
off_grid_lost = refl

coverage_distinct_example :
    coverage_count (tabulate 3 trace_events) 4 ≡ distinct [] (take 4 trace_events)
coverage_distinct_example = coverage_distinct 3 trace_events 4

top_k-Best_example : Best (tabulate 1 trace_events) 1 6 (top_k (tabulate 1 trace_events) 1 6)
top_k-Best_example = top_k-Best (tabulate 1 trace_events) 1 6

top_one : top_k (tabulate 1 trace_events) 1 6 ≡ ("B", 6) ∷ []
unfolding top_k of_tables note
top_one = refl

seekable-builds_example :
    build_seekable loads trace 1
    ≡ (build_index trace >>= λ index. build loads trace 1 >>= λ a. ok (index, a))
seekable-builds_example = seekable-builds loads trace 1 refl
