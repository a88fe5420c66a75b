-- ===== src/Aggregates/Event.antt =====
-- packages/agent/src/grackle/python_runtime/aggregates.py:
-- what the scan reads of one event.
use grackle.Base.{ℕ, zero, max, String, Option, none, some, true, false}
use grackle.Base.Int.{ℤ, pos, negsuc}
use grackle.Base.Result.{◌>>=◌, Result, ok, raise, attribute_error, type_error, unmodelled}
use grackle.Json.{finite, Json, null, bool, int, float, str, arr, obj, nil, end, Fields, field_get}

-- `max(1, n)`
at_least_one : ℤ → ℕ
at_least_one (pos n) = max 1 n
at_least_one (negsuc n) = 1

-- `raw` of `_event_weight`, by its isinstance tests.
weight_of_count : Option Json → ℕ
unfolding at_least_one
weight_of_count none = 1
weight_of_count (some (int n)) = at_least_one n
weight_of_count (some (float (finite whole n))) = at_least_one n
weight_of_count (some _) = 1

weight_of_metadata : Option Json → ℕ
unfolding weight_of_count field_get
weight_of_metadata (some (obj fields)) = weight_of_count (field_get "count" fields)
weight_of_metadata _ = 1

unfoldable pub event_weight : Fields → ℕ
unfolding weight_of_metadata
event_weight event = weight_of_metadata (field_get "metadata" event)

-- `event.get("node_id", "")` and the test `if node_id`: none is a falsy id. A list or a dict cannot
-- be a key; a number as an id is outside the TraceEvent type.
node_id_of : Option Json → Result (Option String)
node_id_of none = ok none
node_id_of (some null) = ok none
node_id_of (some (bool false)) = ok none
node_id_of (some (bool true)) = raise unmodelled
node_id_of (some (int (pos zero))) = ok none
node_id_of (some (int n)) = raise unmodelled
node_id_of (some (float x)) = raise unmodelled
node_id_of (some (str String.[])) = ok none
node_id_of (some (arr nil)) = ok none
node_id_of (some (arr xs)) = raise type_error
node_id_of (some (obj end)) = ok none
node_id_of (some (obj fs)) = raise type_error
node_id_of (some (str s)) = ok (some s)

-- One event of the file: its id, if it has one, and its weight. A line that does not decode is an
-- event with no id.
abbrev pub Event : Type 0
Event = Option String × ℕ

-- What the loop reads from one decoded line; none is a line that raises JSONDecodeError or
-- UnicodeDecodeError.
unfoldable pub decode_event : Option Json → Result Event
unfolding event_weight node_id_of field_get
decode_event none = ok (none, 1)
decode_event (some (obj event)) = do
  id ← node_id_of (field_get "node_id" event)
  ok (id, event_weight event)
decode_event (some _) = raise attribute_error
