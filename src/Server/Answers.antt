-- ===== src/Server/Answers.antt =====
-- What packages/agent/src/grackle/server.py answers to a query of the aggregates of a trace.
use grackle.Base.{
  ℕ, ◌+◌, String, List, [], ◌∷◌, Option, none, some, Bool, true, false, ◌≡◌, refl, ap, ◌∙◌, arith,
  take, length, ltb, if◌then◌else◌,
}
use grackle.Base.Int.{ℤ, pos}
use grackle.Base.Dict.{get}
use grackle.Base.Text.{string_key}
use grackle.Json.{Json, int, str, Fields, end, field, field_get, field_or}
use grackle.Jsonl.{JsonlIndex, window_start}
use grackle.Aggregates.Event.{Event}
use grackle.Aggregates.Tables.{Tables, start, note, touch}
use grackle.Aggregates.Build.{of_tables, init}
use grackle.Aggregates.Query
use grackle.Aggregates.Query.{cumulative_heat, cumulative_heat_all}
use grackle.Aggregates.Model.{tabulate, notes, heat_between, distinct}
use grackle.Aggregates.Scan.{heat_exact}
use grackle.Aggregates.Coverage.{coverage_distinct}
use grackle.Aggregates.TopK.{heat_all_lookup}
use grackle.Server.{make_trace_query_response}
use grackle.Server.Seek.{SeekableSession, Sessions, as_index}
use grackle.Server.Query.{counts_dict, query_data, data_reply, query_session, session_of, query}

abbrev pub count_json : Option ℕ → Option Json
count_json none = none
count_json (some n) = some (int (pos n))

count_json_if :
    (b : Bool) (n : ℕ)
    → count_json (if b then some n else none) ≡ (if b then some (int (pos n)) else none)
count_json_if true n = refl
count_json_if false n = refl

field_get-counts_dict :
    (node_id : String) (xs : List (String × ℕ))
    → field_get node_id (counts_dict xs) ≡ count_json (get node_id xs)
unfolding field_get counts_dict get
field_get-counts_dict node_id [] = refl
field_get-counts_dict node_id ((j, n) ∷ xs) = ground (arith, field_get-counts_dict node_id xs)

touch-index : (k : ℕ) (nid : String) (c : ℕ) (t : Tables) → (touch k nid c t).index ≡ t.index
unfolding touch
touch-index k nid c t = ground arith

notes-index : (k : ℕ) (es : List Event) (t : Tables) → (notes k es t).index ≡ t.index + length es
unfolding note
notes-index k [] t = omega arith
notes-index k ((none, c) ∷ es) t = notes-index k es (note k (none, c) t) ∙ omega arith
notes-index k ((some nid, c) ∷ es) t =
    let e = touch-index k nid c t in notes-index k es (note k (some nid, c) t) ∙ omega (arith, e)

len-tabulate : (k : ℕ) (es : List Event) → Query.len (tabulate k es) ≡ length es
unfolding of_tables init Query.len
len-tabulate k es = notes-index k es start ∙ omega arith

module _ (repr_of : Json → String) (int_of : String → Option ℤ) (id sid : String) (k : ℕ)
    (es : List Event) (index : JsonlIndex) (content : List ℕ) (payload : Fields)
    (sessions : Sessions) (at : ℤ) where
  abbrev pub at_index : ℕ
  at_index = window_start at (length es)

  query_known :
      (kind : Json)
      → field_or "session_id" (str "") payload ≡ str sid
      → field_or "kind" (str "") payload ≡ kind
      → get sid sessions
        ≡ some (record { index = index; aggregates = tabulate k es; content = content })
      → as_index (field_or "at_index" (int (pos 0)) payload) ≡ some at
      → query repr_of int_of id payload sessions
        ≡ data_reply repr_of int_of id
            (str sid)
            kind
            at_index
            (query_data repr_of int_of kind payload (tabulate k es) at_index)
  unfolding query query_session session_of
  query_known kind e f g h =
      let sess : SeekableSession = record {
        index = index;
        aggregates = tabulate k es;
        content = content;
      } in
      let answer : ℕ → Json = λ n.
        data_reply repr_of int_of id (str sid) kind n
          (query_data repr_of int_of kind payload (tabulate k es) n) in
      ap
        (λ q.
          query_session repr_of int_of id q (field_or "kind" (str "") payload) payload
            (session_of q sessions))
        e
      ∙ (ap (λ q. query_session repr_of int_of id (str sid) q payload (get sid sessions)) f
          ∙ (ap (query_session repr_of int_of id (str sid) kind payload) g
              ∙ (ap
                    (λ o. elim o as (λ _. Json) [
                      | none ↦
                          make_trace_query_response id (str sid) kind 0 end
                            (some "invalid at_index")
                      | some n ↦ answer (window_start n (Query.len (tabulate k es)))
                    ])
                    h
                  ∙ ap (λ n. answer (window_start at n)) (len-tabulate k es))))

  -- A coverage query of a known session counts the distinct node ids among the events before the index, which
  -- is clamped to the trace.
  pub query_coverage :
      field_or "session_id" (str "") payload ≡ str sid
      → field_or "kind" (str "") payload ≡ str "coverage"
      → get sid sessions
        ≡ some (record { index = index; aggregates = tabulate k es; content = content })
      → as_index (field_or "at_index" (int (pos 0)) payload) ≡ some at
      → query repr_of int_of id payload sessions
        ≡ make_trace_query_response id
            (str sid)
            (str "coverage")
            at_index
            (field "count" (int (pos (distinct [] (take at_index es)))) end)
            none
  unfolding query_data data_reply
  query_coverage e f g h =
      query_known (str "coverage") e f g h
      ∙ ap
          (λ n.
            make_trace_query_response id (str sid) (str "coverage") at_index
              (field "count" (int (pos n)) end) none)
          (coverage_distinct k es at_index)

module _ (repr_of : Json → String) (int_of : String → Option ℤ) (id sid : String) (es : List Event)
    (index : JsonlIndex) (content : List ℕ) (payload : Fields) (sessions : Sessions) (at : ℤ) where
  -- A heat query of a known session with a dense index gets one reply: the index clamped to the trace, and for
  -- exactly the nodes that have a positive one, the sum of the weights of the events of the node before it.
  pub query_heat :
      field_or "session_id" (str "") payload ≡ str sid
      → field_or "kind" (str "") payload ≡ str "cumulative_heat"
      → get sid sessions
        ≡ some (record { index = index; aggregates = tabulate 1 es; content = content })
      → as_index (field_or "at_index" (int (pos 0)) payload) ≡ some at
      → let n = window_start at (length es) in
        (heats : Fields) × (query repr_of int_of id payload sessions
          ≡ make_trace_query_response id (str sid) (str "cumulative_heat") n heats none)
        × ((node_id : String)
            → field_get node_id heats ≡ (
                if ltb 0 (heat_between node_id n 0 es)
                then some (int (pos (heat_between node_id n 0 es)))
                else none))
  unfolding query_data data_reply
  query_heat e f g h =
      let n = window_start at (length es) in
      (
        counts_dict (cumulative_heat_all (tabulate 1 es) n),
        query_known repr_of int_of id sid 1 es index content payload sessions at
            (str "cumulative_heat") e f g h,
        λ node_id.
            field_get-counts_dict node_id (cumulative_heat_all (tabulate 1 es) n)
            ∙ (ap count_json (heat_all_lookup (tabulate 1 es) n node_id)
                ∙ (count_json_if (ltb 0 (cumulative_heat (tabulate 1 es) node_id n)) _
                    ∙ ap (λ m. if ltb 0 m then some (int (pos m)) else none)
                        (heat_exact es node_id n))),
      )
