-- ===== src/Server/Query.antt =====
-- packages/agent/src/grackle/server.py: the answer of _receive_loop to a trace_query_request. The
-- repr of a kind and int() of a text are parameters.
use grackle.Base.{ℕ, String, List, [], ◌∷◌, Option, none, some, true, false, if◌then◌else◌}
use grackle.Base.Int.{ℤ, pos, pos_part}
use grackle.Base.Dict.{get}
use grackle.Base.Text.{string_key, same_text, append}
use grackle.Base.Result.{Result, ok, raise, type_error, value_error, overflow_error, ◌>>=◌}
use grackle.Json.{
  Json, bool, int, float, str, arr, obj, finite, infinite, nan, Items, nil, cons, Fields, end,
  field, field_or,
}
use grackle.Jsonl.{window_start}
use grackle.Aggregates.Build.{Aggregates}
use grackle.Aggregates.Query
use grackle.Aggregates.Query.{coverage_count, cumulative_heat_all, top_k}
use grackle.Server.{make_trace_query_response}
use grackle.Server.Seek.{SeekableSession, Sessions, as_index}

-- `{node_id: count}`
unfoldable pub counts_dict : List (String × ℕ) → Fields
counts_dict [] = end
counts_dict ((node_id, count) ∷ rest) = field node_id (int (pos count)) (counts_dict rest)

-- `[{"node_id": nid, "count": cnt} for nid, cnt in entries]`
unfoldable pub entry_list : List (String × ℕ) → Items
entry_list [] = nil
entry_list ((node_id, count) ∷ rest) =
    cons (obj (field "node_id" (str node_id) (field "count" (int (pos count)) end)))
      (entry_list rest)

-- `sessions.get(qsid) if isinstance(qsid, str) else None`
unfoldable pub session_of : Json → Sessions → Option SeekableSession
unfolding get
session_of (str sid) sessions = get sid sessions
session_of v sessions = none

module _ (repr_of : Json → String) (int_of : String → Option ℤ) where
  -- `int(v)`
  unfoldable pub to_int : Json → Result ℤ
  to_int (int n) = ok n
  to_int (bool true) = ok (pos 1)
  to_int (bool false) = ok (pos 0)
  to_int (float (finite whole n)) = ok n
  to_int (float infinite) = raise overflow_error
  to_int (float nan) = raise value_error
  to_int (str s) = elim (int_of s) [ none ↦ raise value_error | some n ↦ ok n ]
  to_int v = raise type_error

  -- The data of a query of each kind; an unknown kind is none. A k of at most 0 gives no entries.
  unfoldable pub query_data : Json → Fields → Aggregates → ℕ → Option (Result Fields)
  unfolding to_int counts_dict entry_list coverage_count cumulative_heat_all top_k field_or
  query_data (str kind) payload aggregates at_index =
      if same_text kind "cumulative_heat"
      then some (ok (counts_dict (cumulative_heat_all aggregates at_index)))
      else if same_text kind "coverage"
      then some (ok (field "count" (int (pos (coverage_count aggregates at_index))) end))
      else if same_text kind "top_k"
      then some (do
        k ← to_int (field_or "k" (int (pos 20)) payload)
        ok (field "entries" (arr (entry_list (top_k aggregates (pos_part k) at_index))) end))
      else none
  query_data kind payload aggregates at_index = none

  module _ (id : String) (qsid kind : Json) where
    -- What the try statement sends: an exception gives the error reply.
    unfoldable pub data_reply : ℕ → Option (Result Fields) → Json
    data_reply at_index none =
        make_trace_query_response id qsid kind at_index end
          (some (append "unknown kind: " (repr_of kind)))
    data_reply at_index (some (ok fields)) =
        make_trace_query_response id qsid kind at_index fields none
    data_reply at_index (some (raise e)) =
        make_trace_query_response id qsid kind at_index end (some "query error")

    unfoldable pub query_session : Fields → Option SeekableSession → Json
    unfolding data_reply query_data as_index field_or Query.len
    query_session payload none =
        make_trace_query_response id qsid kind 0 end (some "session not found")
    query_session payload (some sess) =
        elim (as_index (field_or "at_index" (int (pos 0)) payload)) [
          | none ↦ make_trace_query_response id qsid kind 0 end (some "invalid at_index")
          | some at_raw ↦
              let at_index = window_start at_raw (Query.len sess.aggregates) in
              data_reply at_index (query_data kind payload sess.aggregates at_index)
        ]

  -- The reply to the request: there is always one.
  unfoldable pub query : String → Fields → Sessions → Json
  unfolding query_session session_of field_or
  query id payload sessions =
      let qsid = field_or "session_id" (str "") payload in
      query_session id qsid (field_or "kind" (str "") payload) payload (session_of qsid sessions)
