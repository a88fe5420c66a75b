-- ===== src/Server/Live.antt =====
-- packages/agent/src/grackle/server.py: what _receive_loop does with the live messages of a producer, up to
-- the end of its connection. Whether the operating system fails is an argument at each message.
use grackle.Base.{
  ℕ, String, List, [], ◌∷◌, ◌++◌, Option, none, some, Bool, false, not, ◌&&◌, if◌then◌else◌,
}
use grackle.Base.Ascii.{codes}
use grackle.Base.Text.{same_text}
use grackle.Base.Result.{Result, ok, raise}
use grackle.Json.{Float, Fields, field_get, as_text}
use grackle.LiveBuffer.{Entry, ingest}
use grackle.Recording.Part.{Wrote, Faults}
use grackle.Recording.Sink.{
  SessionMeta, RecordingSink, start_recording, record_event, finalize_recording, is_safe_session_id,
}

-- The types of a live message.
pub data LiveType : Type 0 where
  session_start trace_event session_end : LiveType

-- What happens outside at a message: the time, the files of the session id that starts, and what fails.
pub record Outside : Type 0 where
  pub now_ns : ℕ
  pub part : Option (List ℕ)
  pub final : Option (List ℕ)
  pub open_fails : Bool
  pub wrote : Wrote
  pub faults : Faults
  pub save_fails : Bool

pub record LiveMessage : Type 0 where
  pub live_type : LiveType
  pub payload : Fields
  pub msg : String
  pub outside : Outside

-- The options of the loop: recordings are on where the server has a store and a directory for them.
pub record LiveOptions : Type 0 where
  pub buffer_seconds : Float
  pub max_events : Option ℕ
  pub records : Bool
  pub recording_language : String
  pub file_session_id : Option String

-- The state of a connection, with the ring buffer and the store that it shares.
pub record Connection : Type 0 where
  pub ring_buffer : List Entry
  pub recorder : Option RecordingSink
  pub store : List SessionMeta

-- `recorder.finalize()`, if there is one, and `recorder = None`.
unfoldable pub close_recorder : Outside → Connection → Connection
unfolding finalize_recording
close_recorder outside c = elim c.recorder [
  | none ↦ c
  | some s ↦ record c {
    recorder = none;
    store = (finalize_recording outside.faults outside.save_fails s c.store).1;
  }
]

abbrev is_file_session : Option String → String → Bool
is_file_session none sid = false
is_file_session (some file_session_id) sid = same_text sid file_session_id

-- A session id that is recorded.
unfoldable pub is_recorded : Option String → String → Bool
unfolding is_safe_session_id codes
is_recorded file_session_id sid =
    not (same_text sid "")
    && (not (is_file_session file_session_id sid) && is_safe_session_id (codes sid))

-- `RecordingSink(...)`; FileExistsError and OSError skip the recording.
unfoldable pub open_recorder : String → Outside → String → Connection → Connection
unfolding start_recording
open_recorder language outside sid c =
    if outside.open_fails
    then c
    else elim (start_recording sid language outside.part outside.final) [
      | raise e ↦ c
      | ok s ↦ record c { recorder = some s }
    ]

unfoldable pub start_session : LiveOptions → Outside → Option String → Connection → Connection
unfolding is_recorded open_recorder
start_session options outside none c = c
start_session options outside (some sid) c =
    if is_recorded options.file_session_id sid
    then open_recorder options.recording_language outside sid c
    else c

module _ (encode : Fields → Option (List ℕ)) (options : LiveOptions) where
  -- `recorder.write(payload)`
  unfoldable pub write_event : LiveMessage → Connection → Connection
  unfolding record_event
  write_event m c = elim c.recorder [
    | none ↦ c
    | some s ↦ record c { recorder = some (record_event (encode m.payload) m.outside.wrote s) }
  ]

  -- The recording of a message.
  unfoldable pub record_live : LiveType → LiveMessage → Connection → Connection
  unfolding close_recorder start_session as_text field_get write_event
  record_live session_start m c =
      start_session options m.outside (as_text (field_get "session_id" m.payload))
        (close_recorder m.outside c)
  record_live trace_event m c = write_event m c
  record_live session_end m c = close_recorder m.outside c

  unfoldable pub live : LiveMessage → Connection → Result Connection
  unfolding record_live ingest
  live m c =
      elim (ingest c.ring_buffer m.outside.now_ns m.msg options.buffer_seconds options.max_events) [
        | raise e ↦ raise e
        | ok ring_buffer ↦
            let c' = record c { ring_buffer = ring_buffer } in
            ok (if options.records then record_live m.live_type m c' else c')
      ]

  -- The buffer of a trim that raises has the message.
  abbrev pub appended : LiveMessage → Connection → Connection
  appended m c = record c { ring_buffer = c.ring_buffer ++ (m.outside.now_ns, m.msg) ∷ [] }

  -- The messages of a connection up to its end or an exception, and the finally clause.
  unfoldable pub receive : List LiveMessage → Outside → Connection → Connection
  unfolding live close_recorder
  receive [] last c = close_recorder last c
  receive (m ∷ ms) last c = elim (live m c) [
    | raise e ↦ close_recorder last (appended m c)
    | ok c' ↦ receive ms last c'
  ]
