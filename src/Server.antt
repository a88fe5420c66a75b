-- ===== src/Server.antt =====
-- packages/agent/src/grackle/protocol.py: the envelope of a message and the replies of the server. A
-- message enters as the value that json.loads returns, a reply as the value that json.dumps is given.
pub mod Seek
pub mod Signature
pub mod Push
pub mod Topology
pub mod Sound
pub mod Pushed
pub mod Query
pub mod Live
pub mod Sessions
pub mod Calm
pub mod Registered
pub mod Guarded
pub mod Windows
pub mod Answers
pub mod Source
pub mod Confined
pub mod Handle
pub mod Echo
mod Rebuilds
mod Recordings
mod Tests
use grackle.Base.{
  ℕ, String, List, [], ◌∷◌, Option, none, some, Bool, true, ◌&&◌, ◌||◌, if◌then◌else◌,
}
use grackle.Base.Int.{pos}
use grackle.Base.Text.{same_text}
use grackle.Base.Result.{Result, ok, raise, type_error, value_error, unmodelled, ◌>>=◌}
use grackle.Json.{
  Json, int, str, arr, obj, Items, nil, cons, Fields, end, field, field_get, as_text, as_dict,
}

pub record Envelope : Type 0 where
  pub id : String
  pub type_name : String
  pub payload : Fields

-- `"additionalProperties": False`
unfoldable pub known_only : Fields → Bool
known_only end = true
known_only (field key v rest) =
    (same_text key "id" || same_text key "type" || same_text key "payload") && known_only rest

-- `parse_envelope`, none where it raises InvalidEnvelope.
unfoldable pub envelope_of : Fields → Option Envelope
unfolding field_get as_text as_dict
envelope_of fs = elim (as_text (field_get "id" fs)) [
  | none ↦ none
  | some id ↦ elim (as_text (field_get "type" fs)) [
    | none ↦ none
    | some type_name ↦ elim (as_dict (field_get "payload" fs)) [
      | none ↦ none
      | some payload ↦ some record { id = id; type_name = type_name; payload = payload }
    ]
  ]
]

unfoldable pub parse_envelope : Option Json → Option Envelope
unfolding known_only envelope_of
parse_envelope (some (obj fs)) = if known_only fs then envelope_of fs else none
parse_envelope _ = none

-- The envelope of a reply.
abbrev pub reply : String → String → Fields → Json
reply id type_name payload =
    obj (field "id" (str id) (field "type" (str type_name) (field "payload" (obj payload) end)))

abbrev pub make_pong : String → Json
make_pong ping_id = reply ping_id "pong" (field "ping_id" (str ping_id) end)

abbrev pub make_source_response : String → String → String → String → Json
make_source_response id path source encoding =
    reply id "source_response"
      (field "path" (str path) (field "source" (str source) (field "encoding" (str encoding) end)))

abbrev pub make_source_error : String → String → String → Json
make_source_error id path reason =
    reply id "source_error" (field "path" (str path) (field "reason" (str reason) end))

-- `dict(ev)` of an event. A list of pairs would be a dict too: the model stops there.
unfoldable pub dict_of : Json → Result Json
dict_of (obj fs) = ok (obj fs)
dict_of (arr nil) = ok (obj end)
dict_of (arr (cons v vs)) = raise unmodelled
dict_of (str s) = if same_text s "" then ok (obj end) else raise value_error
dict_of v = raise type_error

unfoldable pub dicts_of : List Json → Result Items
unfolding dict_of
dicts_of [] = ok nil
dicts_of (v ∷ vs) = do d ← dict_of v; ds ← dicts_of vs; ok (cons d ds)

abbrev pub window_reply : String → String → ℕ → Items → ℕ → Json
window_reply id session_id start_index events total = reply id "trace_window" (
    field "session_id" (str session_id) (
      field "start_index" (int (pos start_index))
        (field "events" (arr events) (field "total" (int (pos total)) end))))

unfoldable pub make_trace_window : String → String → ℕ → List Json → ℕ → Result Json
unfolding dicts_of
make_trace_window id session_id start_index events total = do
  ds ← dicts_of events
  ok (window_reply id session_id start_index ds total)

abbrev pub make_trace_seek_error : String → String → String → Json
make_trace_seek_error id session_id reason =
    reply id "trace_seek_error"
      (field "session_id" (str session_id) (field "reason" (str reason) end))

abbrev error_field : Option String → Fields
error_field none = end
error_field (some error) = field "error" (str error) end

-- The session id and the kind are echoed as they came in.
abbrev pub make_trace_query_response : String → Json → Json → ℕ → Fields → Option String → Json
make_trace_query_response id session_id kind at_index data_fields error =
    reply id "trace_query_response" (
      field "session_id" session_id (
        field "kind" kind (
          field "at_index" (int (pos at_index))
            (field "data" (obj data_fields) (error_field error)))))

abbrev pub make_session_list_response : String → Items → Json
make_session_list_response id sessions =
    reply id "session_list_response" (field "sessions" (arr sessions) end)
