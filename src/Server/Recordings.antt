-- ===== src/Server/Recordings.antt =====
-- packages/agent/src/grackle/server.py: concrete messages of a producer, and the theorems on them.
use grackle.Base.{ℕ, String, List, [], ◌∷◌, Option, none, some, true, false, ◌≡◌, refl}
use grackle.Base.Int.{pos}
use grackle.Base.Text.{String_discrete}
use grackle.Json.{str, finite, Fields, end, field, field_get, as_text}
use grackle.Recording.Part.{whole, torn}
use grackle.Recording.Rows.{rows, latest}
use grackle.Recording.Sink.{put_session}
use grackle.Server.Live.{
  session_start, trace_event, session_end, LiveType, Outside, LiveMessage, LiveOptions, Connection,
  receive, is_recorded,
}
use grackle.Server.Sessions.{sessions_of, save_all, IsCalm}
use grackle.Server.Registered.{receive-sessions_of}
use grackle.Server.Guarded.{IsGuarded, receive-IsGuarded}

abbrev calm : Outside
calm = record {
  now_ns = 5;
  part = none;
  final = none;
  open_fails = false;
  wrote = whole;
  faults = record {
    truncate_fails = false;
    close_fails = none;
    rename_fails = false;
    unlink_fails = false;
  };
  save_fails = false;
}

calm-IsCalm : IsCalm calm
calm-IsCalm = record { no_part = refl; opens = refl; writes = refl; no_faults = refl; saves = refl }

abbrev message : LiveType → Fields → LiveMessage
message t payload = record { live_type = t; payload = payload; msg = "m"; outside = calm }

abbrev sid : String → Fields
sid s = field "session_id" (str s) end

-- A session of two events that the next start ends, one of an id that is not safe, one that the next start
-- ends, and one of the first id again that the end of the connection ends.
abbrev messages : List LiveMessage
messages =
    message session_start (sid "a")
    ∷ message trace_event end
    ∷ message trace_event end
    ∷ message session_start (sid "../b")
    ∷ message trace_event end
    ∷ message session_end end
    ∷ message session_start (sid "c")
    ∷ message trace_event end
    ∷ message session_start (sid "a")
    ∷ message trace_event end
    ∷ []

abbrev options : LiveOptions
options = record {
  buffer_seconds = finite true (pos 60);
  max_events = some 3;
  records = true;
  recording_language = "python";
  file_session_id = some "f";
}

abbrev idle : Connection
idle = record { ring_buffer = []; recorder = none; store = [] }

abbrev encode : Fields → Option (List ℕ)
encode fs = some (123 ∷ 125 ∷ [])

registered :
    sessions_of options messages
    ≡ record { id = "a"; event_count = 2; language = "python" }
      ∷ record { id = "c"; event_count = 1; language = "python" }
      ∷ record { id = "a"; event_count = 1; language = "python" }
      ∷ []
unfolding String_discrete field_get is_recorded as_text
registered = refl

-- The second session of `a` replaces the first.
stored :
    save_all (sessions_of options messages) []
    ≡ record { id = "c"; event_count = 1; language = "python" }
      ∷ record { id = "a"; event_count = 1; language = "python" }
      ∷ []
unfolding String_discrete field_get is_recorded as_text put_session
stored = refl

receive-sessions_of_example :
    let after = (receive encode options messages calm idle).store in
    (after ≡ save_all (sessions_of options messages) [])
    × ((id : String) → rows id after ≡ latest id (sessions_of options messages) [])
receive-sessions_of_example =
    receive-sessions_of options true (pos 60) refl refl encode (λ p. refl) messages calm idle refl
      (
        calm-IsCalm,
        (
          calm-IsCalm,
          (
            calm-IsCalm,
            (
              calm-IsCalm,
              (
                calm-IsCalm,
                (calm-IsCalm, (calm-IsCalm, (calm-IsCalm, (calm-IsCalm, (calm-IsCalm, tt))))),
              ),
            ),
          ),
        ),
      )
      calm-IsCalm

abbrev torn_write : Outside
torn_write = record calm { wrote = torn 1; save_fails = true }

receive-IsGuarded_example :
    IsGuarded encode options (receive encode options messages torn_write idle)
receive-IsGuarded_example = receive-IsGuarded encode options messages torn_write idle (tt, tt)
