-- ===== src/Server/Sessions.antt =====
-- The sessions that the live messages of a connection register, told from the messages alone.
use grackle.Base.{
  ℕ, suc, String, List, [], ◌∷◌, ◌++◌, Option, none, some, false, ◌≡◌, refl, ap, ◌∙◌, if◌then◌else◌,
}
use grackle.Json.{field_get, as_text}
use grackle.Recording.Part.{whole}
use grackle.Recording.Rows.{rows, latest, rows-put_session}
use grackle.Recording.Sink.{SessionMeta, put_session}
use grackle.Server.Live.{
  LiveType, session_start, trace_event, Outside, LiveMessage, LiveOptions, is_recorded,
}

-- The events that come before the next start or end.
abbrev pub next_of : LiveType → ℕ → ℕ
next_of trace_event n = suc n
next_of _ n = 0

abbrev pub events_next : List LiveMessage → ℕ
events_next [] = 0
events_next (m ∷ ms) = next_of m.live_type (events_next ms)

module _ (options : LiveOptions) where
  -- The session id of a start, if it is recorded.
  abbrev pub recorded_id : LiveMessage → Option String
  recorded_id m = elim (as_text (field_get "session_id" m.payload)) [
    | none ↦ none
    | some sid ↦ if is_recorded options.file_session_id sid then some sid else none
  ]

  -- A session of no events is not registered.
  abbrev pub session_with : Option String → ℕ → List SessionMeta
  session_with (some sid) (suc n) =
      record { id = sid; event_count = suc n; language = options.recording_language } ∷ []
  session_with _ _ = []

  -- Each start with a session id that is recorded gives a session of the events up to the next start or end.
  abbrev pub started_by : LiveType → LiveMessage → ℕ → List SessionMeta
  started_by session_start m n = session_with (recorded_id m) n
  started_by _ m n = []

  abbrev pub sessions_of : List LiveMessage → List SessionMeta
  sessions_of [] = []
  sessions_of (m ∷ ms) = started_by m.live_type m (events_next ms) ++ sessions_of ms

-- The store after sessions that are put into it one by one.
abbrev pub save_all : List SessionMeta → List SessionMeta → List SessionMeta
save_all [] store = store
save_all (m ∷ ms) store = save_all ms (put_session m store)

pub save_all-append :
    (xs ys store : List SessionMeta) → save_all (xs ++ ys) store ≡ save_all ys (save_all xs store)
save_all-append [] ys store = refl
save_all-append (x ∷ xs) ys store = save_all-append xs ys (put_session x store)

pub rows-save_all :
    (id : String) (ms store : List SessionMeta)
    → rows id (save_all ms store) ≡ latest id ms (rows id store)
rows-save_all id [] store = refl
rows-save_all id (m ∷ ms) store =
    rows-save_all id ms (put_session m store) ∙ ap (latest id ms) (rows-put_session id m store)

-- Nothing fails outside, and no recording of the session id is under way elsewhere.
pub record IsCalm (o : Outside) : Type 0 where
  pub no_part : o.part ≡ none
  pub opens : o.open_fails ≡ false
  pub writes : o.wrote ≡ whole
  pub no_faults : o.faults ≡ record {
    truncate_fails = false;
    close_fails = none;
    rename_fails = false;
    unlink_fails = false;
  }
  pub saves : o.save_fails ≡ false
