-- ===== src/Server/Guarded.antt =====
-- Which session ids a connection can register, whatever fails: packages/agent/src/grackle/server.py.
use grackle.Base.{
  ℕ, String, List, [], ◌∷◌, Option, none, some, Bool, true, false, ◌==◌, ◌≡◌, All, All-append,
  Bool_split, if_split, if◌then◌else◌, ◌≤◌, length, arith, sym, ◌∙◌,
}
use grackle.Base.Result.{Result, ok, raise}
use grackle.Json.{Fields, field_get, as_text}
use grackle.LiveBuffer.{Entry, ingest}
use grackle.Base.Dict.{some_inj}
use grackle.Base.Ascii.{codes}
use text.Mathlib.TextEquality.{eq_iff}
use grackle.Base.Text.{same_text}
use grackle.Recording.SafeId.{in_segment, plain_start, is_safe_session_id-All}
use grackle.Recording.Part.{Faults, Done, finalize, open_part}
use grackle.Recording.Sink.{
  SessionMeta, RecordingSink, start_recording, record_event, finalize_recording, save_session,
  without, put_session, discard_recording, is_safe_session_id,
}
use grackle.Server.Live.{
  LiveType, session_start, trace_event, session_end, Outside, LiveMessage, LiveOptions, Connection,
  close_recorder, is_recorded, open_recorder, start_session, write_event, record_live, live,
  receive, appended,
}

module _ (P : String → Type 0) where
  abbrev AllIds : List SessionMeta → Type 0
  AllIds store = All (λ x. P x.id) store

  without-All : (id : String) (store : List SessionMeta) → AllIds store → AllIds (without id store)
  unfolding without
  without-All id [] a = tt
  without-All id (m ∷ rest) a =
      if_split AllIds (same_text m.id id) (without id rest) (m ∷ without id rest)
        (λ q. without-All id rest a.1) (λ q. (a.0, without-All id rest a.1))

  save_session-All :
      (b : Bool) (s : RecordingSink) (store : List SessionMeta)
      → P s.session_id
      → AllIds store
      → AllIds (save_session b s store)
  unfolding save_session put_session
  save_session-All true s store p a = a
  save_session-All false s store p a =
      All-append (λ x. P x.id) _ _ (without-All s.session_id store a) (p, tt)

  finished-All :
      (faults : Faults) (b : Bool) (s : RecordingSink) (store : List SessionMeta)
      → P s.session_id
      → AllIds store
      → (d : Done)
      → AllIds
          (elim d.0 as (λ _. RecordingSink × List SessionMeta) [
            | raise e ↦
                (discard_recording faults (record s { finalized = true; writer = d.1 }), store)
            | ok a ↦
                let s' = record s { finalized = true; writer = d.1 } in
                (s', save_session b s' store)
          ]).1
  finished-All faults b s store p a (raise e, w) = a
  finished-All faults b s store p a (ok u, w) =
      save_session-All b (record s { finalized = true; writer = w }) store p a

  finalize_recording-All :
      (faults : Faults) (b : Bool) (s : RecordingSink) (store : List SessionMeta)
      → P s.session_id
      → AllIds store
      → AllIds (finalize_recording faults b s store).1
  unfolding finalize_recording
  finalize_recording-All faults b s store p a =
      Bool_split (λ (r : RecordingSink × List SessionMeta). AllIds r.1) s.finalized (s, store) _
        (λ t. a)
        (λ t.
          Bool_split (λ (r : RecordingSink × List SessionMeta). AllIds r.1) (s.writer.count == 0) _
            _ (λ z. a) (λ z. finished-All faults b s store p a (finalize faults s.writer)))

module _ (encode : Fields → Option (List ℕ)) (options : LiveOptions) where
  -- An id that is one segment of a path, and not that of the replayed file.
  abbrev pub Allowed : String → Type 0
  Allowed sid =
      (All (λ c. in_segment c ≡ true) (codes sid)
        × (plain_start (codes sid) ≡ true)
        × (length (codes sid) ≤ 129))
      × ((f : String) → options.file_session_id ≡ some f → ¬ (sid ≡ f))

  is_recorded-Allowed :
      (o : Option String) (sid : String)
      → is_recorded o sid ≡ true
      → (is_safe_session_id (codes sid) ≡ true) × ((f : String) → o ≡ some f → ¬ (sid ≡ f))
  unfolding is_recorded
  is_recorded-Allowed none sid h = (ground arith, λ f e. cc)
  is_recorded-Allowed (some g) sid h =
      let other : same_text sid g ≡ false = ground arith in
      (ground arith, λ f e q. cc (other, (eq_iff sid g).1 (q ∙ sym (some_inj e))))

  abbrev AllowedSink : Option RecordingSink → Type 0
  AllowedSink none = Unit
  AllowedSink (some s) = Allowed s.session_id

  -- The ids of the store and of the recording under way.
  abbrev pub IsGuarded : Connection → Type 0
  IsGuarded c = AllIds Allowed c.store × AllowedSink c.recorder

  close_recorder-IsGuarded :
      (o : Outside) (r : List Entry) (rec : Option RecordingSink) (st : List SessionMeta)
      → IsGuarded (record { ring_buffer = r; recorder = rec; store = st })
      → IsGuarded (close_recorder o (record { ring_buffer = r; recorder = rec; store = st }))
  unfolding close_recorder
  close_recorder-IsGuarded o r none st h = h
  close_recorder-IsGuarded o r (some s) st (a, p) =
      (finalize_recording-All Allowed o.faults o.save_fails s st p a, tt)

  start_session-IsGuarded :
      (o : Outside) (sid : Option String) (c : Connection)
      → IsGuarded c
      → IsGuarded (start_session options o sid c)
  unfolding start_session open_recorder start_recording open_part
  start_session-IsGuarded o none c h = h
  start_session-IsGuarded o (some sid) c h =
      if_split IsGuarded (is_recorded options.file_session_id sid) _ c
        (λ allowed.
          let (safe, other) = is_recorded-Allowed options.file_session_id sid allowed in
          let guarded : Allowed sid = (is_safe_session_id-All (codes sid) safe, other) in
          if_split IsGuarded o.open_fails c _ (λ f. h)
            (λ f.
              elim o.part
                as (λ part.
                  IsGuarded (elim (start_recording sid options.recording_language part o.final) [
                    | raise x ↦ c
                    | ok s ↦ record c { recorder = some s }
                  ])) [ none ↦ (h.0, guarded) | some content ↦ h ]))
        (λ f. h)

  write_event-IsGuarded :
      (m : LiveMessage) (r : List Entry) (rec : Option RecordingSink) (st : List SessionMeta)
      → IsGuarded (record { ring_buffer = r; recorder = rec; store = st })
      → IsGuarded
          (write_event encode options m (record { ring_buffer = r; recorder = rec; store = st }))
  unfolding write_event record_event
  write_event-IsGuarded m r none st h = h
  write_event-IsGuarded m r (some s) st h = h

  record_live-IsGuarded :
      (t : LiveType) (m : LiveMessage) (c : Connection)
      → IsGuarded c
      → IsGuarded (record_live encode options t m c)
  unfolding record_live
  record_live-IsGuarded session_start m c h =
      start_session-IsGuarded m.outside (as_text (field_get "session_id" m.payload))
        (close_recorder m.outside c)
        (close_recorder-IsGuarded m.outside c.ring_buffer c.recorder c.store h)
  record_live-IsGuarded trace_event m c h =
      write_event-IsGuarded m c.ring_buffer c.recorder c.store h
  record_live-IsGuarded session_end m c h =
      close_recorder-IsGuarded m.outside c.ring_buffer c.recorder c.store h

  -- Whatever fails at any message or at the end of the connection, a session that gets into the store has an id
  -- that is one segment of a path, of at most 129 characters, and not that of the replayed file.
  pub receive-IsGuarded :
      (ms : List LiveMessage) (last : Outside) (c : Connection)
      → IsGuarded c
      → IsGuarded (receive encode options ms last c)
  unfolding receive live
  receive-IsGuarded [] last c h = close_recorder-IsGuarded last c.ring_buffer c.recorder c.store h
  receive-IsGuarded (m ∷ ms) last c h =
      elim (ingest c.ring_buffer m.outside.now_ns m.msg options.buffer_seconds options.max_events)
        as (λ x.
          IsGuarded
            (elim (elim x as (λ _. Result Connection) [
              | raise e ↦ raise e
              | ok ring_buffer ↦
                  let c' = record c { ring_buffer = ring_buffer } in
                  ok (if options.records then record_live encode options m.live_type m c' else c')
            ]) [
              | raise e ↦ close_recorder last (appended encode options m c)
              | ok c' ↦ receive encode options ms last c'
            ])) [
              | raise e ↦
                  close_recorder-IsGuarded last (appended encode options m c).ring_buffer c.recorder
                    c.store h
              | ok ring_buffer ↦
                  let c' = record c { ring_buffer = ring_buffer } in
                  receive-IsGuarded ms last _ (
                    if_split IsGuarded options.records (record_live encode options m.live_type m c')
                      c' (λ q. record_live-IsGuarded m.live_type m c' h) (λ q. h))
            ]
