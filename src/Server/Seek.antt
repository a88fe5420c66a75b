-- ===== src/Server/Seek.antt =====
-- packages/agent/src/grackle/server.py: the answer of _receive_loop to a trace_seek_request.
use grackle.Base.{
  ℕ, String, List, [], ◌∷◌, Option, none, some, Bool, true, false, min, if◌then◌else◌,
}
use grackle.Base.Int.{ℤ, pos, pos_part}
use grackle.Base.Dict.{get}
use grackle.Base.Text.{string_key}
use grackle.Base.Result.{Result, ok, ◌>>=◌, raise}
use grackle.Json.{Json, bool, int, str, Fields, field_or, as_text}
use grackle.Jsonl
use grackle.Jsonl.{JsonlIndex, window_start, read_window}
use grackle.Aggregates.Build.{Aggregates}
use grackle.Server.{make_trace_window, make_trace_seek_error}

-- A session with the bytes of its file.
pub record SeekableSession : Type 0 where
  pub index : JsonlIndex
  pub aggregates : Aggregates
  pub content : List ℕ

abbrev pub Sessions : Type 0
Sessions = List (String × SeekableSession)

-- `isinstance(v, int)`, with the number: a bool is an int.
unfoldable pub as_index : Json → Option ℤ
as_index (int n) = some n
as_index (bool true) = some (pos 1)
as_index (bool false) = some (pos 0)
as_index v = none

abbrev pub max_seek_count : ℕ
max_seek_count = 1000

-- The reply to what was read: what the read raises is caught, what dict() raises is not.
unfoldable pub window_or_error : String → String → ℕ → ℕ → Result (List Json) → Result Json
unfolding make_trace_window
window_or_error id sid start total (ok events) = make_trace_window id sid start events total
window_or_error id sid start total (raise e) = ok (make_trace_seek_error id sid "read error")

module _ (loads : List ℕ → Result (Option Json)) (read_fails : Bool) (id : String) where
  -- A read that fails raises within the try; the replies are made after it.
  unfoldable pub seek_window : String → SeekableSession → Option ℤ → Option ℤ → Result Json
  unfolding Jsonl.len read_window window_or_error
  seek_window sid sess (some start) (some count) =
      let count_capped = min (pos_part count) max_seek_count in
      let total = Jsonl.len sess.index in
      let clamped_start = window_start start total in
      let events = read_window loads sess.index sess.content start (pos count_capped) in
      if read_fails
      then ok (make_trace_seek_error id sid "read error")
      else window_or_error id sid clamped_start total events
  seek_window sid sess _ _ = ok (make_trace_seek_error id sid "invalid start_index or count")

  unfoldable pub seek_session : String → Fields → Option SeekableSession → Result Json
  unfolding seek_window as_index field_or
  seek_session sid payload none = ok (make_trace_seek_error id sid "session not found")
  seek_session sid payload (some sess) =
      seek_window sid sess (as_index (field_or "start_index" (int (pos 0)) payload))
        (as_index (field_or "count" (int (pos 0)) payload))

  -- The replies to the request: none to an id that is not a text.
  unfoldable pub seek : Fields → Sessions → Result (List Json)
  unfolding seek_session field_or as_text get
  seek payload sessions = elim (as_text (some (field_or "session_id" (str "") payload))) [
    | none ↦ ok []
    | some sid ↦ (do r ← seek_session sid payload (get sid sessions); ok (r ∷ []))
  ]
