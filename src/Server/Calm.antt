-- ===== src/Server/Calm.antt =====
-- What one live message does in packages/agent/src/grackle/server.py where nothing fails outside.
use grackle.Base.{
  ℕ, zero, suc, ◌+◌, String, List, [], ◌∷◌, ◌++◌, Option, none, some, true, false, ◌≡◌, refl, sym,
  ap, ◌∙◌, arith, is_some, if◌then◌else◌, Bool-cases, Option-cases, inl, inr, length,
}
use grackle.Json.{Fields, field_get, as_text}
use grackle.LiveBuffer.{Entry}
use grackle.Recording.Part.{Faults, write, write_data, finalize, truncate, close, rename, open_part}
use grackle.Recording.Sink.{
  SessionMeta, RecordingSink, start_recording, record_event, finalize_recording, save_session,
  put_session, discard_recording,
}
use grackle.Server.Live.{
  LiveType, session_start, trace_event, session_end, Outside, LiveMessage, LiveOptions, Connection,
  close_recorder, is_recorded, open_recorder, start_session, write_event, record_live,
}
use grackle.Server.Sessions.{
  save_all, save_all-append, next_of, recorded_id, session_with, started_by, IsCalm,
}

abbrev pub conn : List Entry → Option RecordingSink → List SessionMeta → Connection
conn r o st = record { ring_buffer = r; recorder = o; store = st }

abbrev pub sink : String → String → List ℕ → Option (List ℕ) → ℕ → ℕ → RecordingSink
sink sid language content final n offset = record {
  session_id = sid;
  language = language;
  finalized = false;
  writer = record {
    part = some content;
    final = final;
    closed = false;
    count = n;
    broken = false;
    last_good_offset = offset;
    finalized = false;
  };
}

-- A recording that is open, with the number of its events.
abbrev pub IsOpen : String → String → ℕ → RecordingSink → Type 0
IsOpen language sid n s =
    (content : List ℕ) × (final : Option (List ℕ)) × (offset : ℕ) × (s
      ≡ sink sid language content final n offset)

abbrev no_faults : Faults
no_faults = record {
  truncate_fails = false;
  close_fails = none;
  rename_fails = false;
  unlink_fails = false;
}

finalize_open :
    (sid language : String) (content : List ℕ) (final : Option (List ℕ)) (n offset : ℕ)
    (st : List SessionMeta)
    → (finalize_recording no_faults false (sink sid language content final (suc n) offset) st).1
      ≡ put_session record { id = sid; event_count = suc n; language = language } st
unfolding finalize_recording finalize truncate close rename save_session
finalize_open sid language content final n offset st = ground arith

abbrev started : LiveOptions → Option (List ℕ) → Option String → Option RecordingSink
started options final none = none
started options final (some sid) = some (sink sid options.recording_language [] final 0 0)

module _ (options : LiveOptions) where
  close_open :
      (o : Outside) (sid : String) (n : ℕ) (s : RecordingSink) (r : List Entry)
      (st : List SessionMeta)
      → IsCalm o
      → IsOpen options.recording_language sid n s
      → close_recorder o (conn r (some s) st)
        ≡ conn r none (save_all (session_with options (some sid) n) st)
  unfolding close_recorder finalize_recording discard_recording finalize truncate close rename
      save_session
  close_open o sid zero s r st h (content, final, offset, e) = rw e refl
  close_open o sid (suc n) s r st h (content, final, offset, e) =
      rw (e, h.no_faults, h.saves)
        (ap (conn r none) (finalize_open sid options.recording_language content final n offset st))

  module _ (encode : Fields → Option (List ℕ))
      (encodes : (p : Fields) → is_some (encode p) ≡ true) where
    write-IsOpen :
        (m : LiveMessage) (sid : String) (n : ℕ) (s : RecordingSink) (r : List Entry)
        (st : List SessionMeta)
        → IsCalm m.outside
        → IsOpen options.recording_language sid n s
        → (s' : RecordingSink) × (write_event encode options m (conn r (some s) st)
            ≡ conn r (some s') st)
          × IsOpen options.recording_language sid (n + 1) s'
    unfolding write_event record_event write write_data
    write-IsOpen m sid n s r st h (content, final, offset, e) =
        elim (Option-cases (encode m.payload)) [
          | inl f ↦ cc (sym (encodes m.payload) ∙ ap is_some f)
          | inr (t, f) ↦
              let bytes = t ++ 10 ∷ [] in
              (
                sink sid options.recording_language (content ++ bytes) final (n + 1)
                    (offset + length bytes),
                rw (e, f, h.writes) refl,
                (content ++ bytes, final, offset + length bytes, refl),
              )
        ]

    start_open :
        (m : LiveMessage) (r : List Entry) (st : List SessionMeta)
        → IsCalm m.outside
        → start_session options m.outside
            (as_text (field_get "session_id" m.payload))
            (conn r none st)
          ≡ conn r (started options m.outside.final (recorded_id options m)) st
    unfolding start_session open_recorder start_recording open_part
    start_open m r st h =
        elim (as_text (field_get "session_id" m.payload))
          as (λ o.
            start_session options m.outside o (conn r none st)
            ≡ conn r
                (started options m.outside.final (elim o [
                  | none ↦ none
                  | some sid ↦ if is_recorded options.file_session_id sid then some sid else none
                ]))
                st) [
                  | none ↦ refl
                  | some sid ↦ elim (Bool-cases (is_recorded options.file_session_id sid)) [
                    | inl q ↦ rw (q, h.opens, h.no_part) refl
                    | inr q ↦ rw q refl
                  ]
                ]

    -- The recording under way, as the session id and the number of its events.
    abbrev pub Doing : Option (String × ℕ) → Option RecordingSink → Type 0
    Doing none none = Unit
    Doing (some (sid, n)) (some s) = IsOpen options.recording_language sid n s
    Doing _ _ = ⊥

    abbrev pub pending : Option (String × ℕ) → ℕ → List SessionMeta
    pending none k = []
    pending (some (sid, n)) k = session_with options (some sid) (n + k)

    abbrev fresh_of : Option String → Option (String × ℕ)
    fresh_of none = none
    fresh_of (some sid) = some (sid, 0)

    started-Doing :
        (final : Option (List ℕ)) (o : Option String) → Doing (fresh_of o) (started options final o)
    started-Doing final none = tt
    started-Doing final (some sid) = ([], final, 0, refl)

    fresh_pending : (o : Option String) (k : ℕ) → pending (fresh_of o) k ≡ session_with options o k
    fresh_pending none k = refl
    fresh_pending (some sid) k = ap (session_with options (some sid)) (omega arith)

    same_count :
        (sid : String) (m n : ℕ)
        → m ≡ n
        → session_with options (some sid) m ≡ session_with options (some sid) n
    same_count sid m n h = ap (session_with options (some sid)) h

    -- What one message does, and how it splits what is registered in the end.
    abbrev pub Stepped :
        LiveType
        → LiveMessage
        → ℕ
        → Option (String × ℕ)
        → List Entry
        → List SessionMeta
        → Connection
        → Type 0
    Stepped t m k p r st c =
        (p' : Option (String × ℕ)) × (o : Option RecordingSink) × (st' : List SessionMeta) × (c
          ≡ conn r o st')
        × Doing p' o
        × ((later : List SessionMeta)
            → save_all (pending p' k ++ later) st'
              ≡ save_all (pending p (next_of t k) ++ (started_by options t m k ++ later)) st)

    module _ (outside : Outside) (r : List Entry) (st : List SessionMeta) (h : IsCalm outside) where
      pub after_close :
          (p : Option (String × ℕ)) (o : Option RecordingSink)
          → Doing p o
          → close_recorder outside (conn r o st) ≡ conn r none (save_all (pending p 0) st)
      unfolding close_recorder
      after_close none none d = refl
      after_close (some (sid, n)) (some s) d =
          close_open outside sid n s r st h d
          ∙ ap (λ x. conn r none (save_all x st)) (same_count sid n (n + 0) (omega arith))
      after_close none (some s) d = absurd d
      after_close (some p) none d = absurd d

    module _ (m : LiveMessage) (k : ℕ) (r : List Entry) (st : List SessionMeta)
        (h : IsCalm m.outside) where
      pub record_live-Stepped :
          (t : LiveType) (p : Option (String × ℕ)) (o : Option RecordingSink)
          → Doing p o
          → Stepped t m k p r st (record_live encode options t m (conn r o st))
      unfolding record_live
      record_live-Stepped session_start p o d =
          let id = recorded_id options m in
          (
            fresh_of id,
            started options m.outside.final id,
            save_all (pending p 0) st,
            ap (start_session options m.outside (as_text (field_get "session_id" m.payload)))
                  (after_close m.outside r st h p o d)
                ∙ start_open m r (save_all (pending p 0) st) h,
            started-Doing m.outside.final id,
            λ later.
                sym (save_all-append (pending p 0) _ st)
                ∙ ap (λ x. save_all (pending p 0 ++ (x ++ later)) st) (fresh_pending id k),
          )
      record_live-Stepped session_end p o d = (
        none,
        none,
        save_all (pending p 0) st,
        after_close m.outside r st h p o d,
        tt,
        λ later. sym (save_all-append (pending p 0) later st),
      )
      record_live-Stepped trace_event none none d = (none, none, st, refl, tt, λ later. refl)
      record_live-Stepped trace_event (some (sid, n)) (some s) d =
          let (s', e, i) = write-IsOpen m sid n s r st h d in
          (
            some (sid, n + 1),
            some s',
            st,
            e,
            i,
            λ later.
                ap (λ x. save_all (x ++ later) st)
                  (same_count sid (n + 1 + k) (n + suc k) (omega arith)),
          )
      record_live-Stepped trace_event none (some s) d = absurd d
      record_live-Stepped trace_event (some p) none d = absurd d
