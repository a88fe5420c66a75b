-- ===== src/Server/Registered.antt =====
-- What the live messages of a connection register, in packages/agent/src/grackle/server.py.
use grackle.Base.{
  ℕ, String, List, [], ◌∷◌, ◌++◌, Option, none, Bool, true, ◌≡◌, refl, sym, ap, ◌∙◌, All, is_some,
  if◌then◌else◌,
}
use mathlib.Core.List.{append-nil}
use grackle.Base.Int.{ℤ, pos, negsuc}
use grackle.Base.Result.{Result, ok, raise}
use grackle.Json.{finite, Fields}
use grackle.LiveBuffer.{Entry, ingest, trim_ring_buffer, cutoff, count_cap, age_trim}
use grackle.Recording.Rows.{rows, latest}
use grackle.Recording.Sink.{SessionMeta, RecordingSink}
use grackle.Server.Live.{
  Outside, LiveMessage, LiveOptions, Connection, close_recorder, record_live, live, receive,
  appended,
}
use grackle.Server.Sessions.{events_next, sessions_of, save_all, rows-save_all, IsCalm}
use grackle.Server.Calm.{conn, Doing, pending, record_live-Stepped, after_close}

cutoff_ok :
    (now_ns : ℕ) (whole_s : Bool) (n : ℤ) → (c : ℤ) × (cutoff now_ns (finite whole_s n) ≡ ok c)
cutoff_ok now_ns whole_s (pos n) = (_, refl)
cutoff_ok now_ns whole_s (negsuc n) = (_, refl)

module _ (options : LiveOptions) (whole_s : Bool) (seconds : ℤ)
    (finite_s : options.buffer_seconds ≡ finite whole_s seconds) (on : options.records ≡ true)
    (encode : Fields → Option (List ℕ)) (encodes : (p : Fields) → is_some (encode p) ≡ true) where
  ingest_ok :
      (r : List Entry) (now_ns : ℕ) (msg : String)
      → (r' : List Entry) × (ingest r now_ns msg options.buffer_seconds options.max_events ≡ ok r')
  unfolding ingest trim_ring_buffer
  ingest_ok r now_ns msg =
      let (c, e) = cutoff_ok now_ns whole_s seconds in
      (count_cap options.max_events (age_trim c (r ++ (now_ns, msg) ∷ [])), rw (finite_s, e) refl)

  live_ok :
      (m : LiveMessage) (r : List Entry) (o : Option RecordingSink) (st : List SessionMeta)
      → (r' : List Entry) × (live encode options m (conn r o st)
          ≡ ok (record_live encode options m.live_type m (conn r' o st)))
  unfolding live
  live_ok m r o st =
      let (r', e) = ingest_ok r m.outside.now_ns m.msg in
      let next : Result (List Entry) → Result Connection = λ x. elim x [
        | raise e ↦ raise e
        | ok ring_buffer ↦
            let c' = record (conn r o st) { ring_buffer = ring_buffer } in
            ok (if options.records then record_live encode options m.live_type m c' else c')
      ] in
      (
        r',
        ap next e
            ∙ ap
                (λ b. ok (
                  if b
                  then record_live encode options m.live_type m (conn r' o st)
                  else conn r' o st))
                on,
      )

  receive-sessions_lem :
      (ms : List LiveMessage) (last : Outside) (p : Option (String × ℕ)) (o : Option RecordingSink)
      (r : List Entry) (st : List SessionMeta)
      → All (λ m. IsCalm m.outside) ms
      → IsCalm last
      → Doing options encode encodes p o
      → (receive encode options ms last (conn r o st)).store
        ≡ save_all (pending options encode encodes p (events_next ms) ++ sessions_of options ms) st
  unfolding receive
  receive-sessions_lem [] last p o r st calm h d =
      ap (λ c. c.store) (after_close options encode encodes last r st h p o d)
      ∙ ap (λ x. save_all x st) (sym (append-nil (pending options encode encodes p 0)))
  receive-sessions_lem (m ∷ ms) last p o r st calm h d =
      let (r', e) = live_ok m r o st in
      let (p', o', st', f, d', eq) =
        record_live-Stepped options encode encodes m (events_next ms) r' st calm.0 m.live_type p o
          d in
      let after : Result Connection → Connection = λ x. elim x [
        | raise e ↦ close_recorder last (appended encode options m (conn r o st))
        | ok c ↦ receive encode options ms last c
      ] in
      ap (λ x. (after x).store) e
      ∙ (ap (λ c. (receive encode options ms last c).store) f
          ∙ (receive-sessions_lem ms last p' o' r' st' calm.1 h d' ∙ eq (sessions_of options ms)))

  receive-stored :
      (ms : List LiveMessage) (last : Outside) (c : Connection)
      → c.recorder ≡ none
      → All (λ m. IsCalm m.outside) ms
      → IsCalm last
      → (receive encode options ms last c).store ≡ save_all (sessions_of options ms) c.store
  receive-stored ms last c idle calm h =
      ap (λ o. (receive encode options ms last (conn c.ring_buffer o c.store)).store) idle
      ∙ receive-sessions_lem ms last none none c.ring_buffer c.store calm h tt

  -- What a connection registers is told by its messages alone, where recordings are on, the window is a finite
  -- number, every payload encodes and nothing fails outside: into the store are put, in their order, one session
  -- for each start with an id that is recorded and at least one event before the next start or end, with the
  -- number of these events. The end of the connection ends the last session too. So under each id
  -- the store has the last of these sessions with the id, or where there is none the row that was there.
  pub receive-sessions_of :
      (ms : List LiveMessage) (last : Outside) (c : Connection)
      → c.recorder ≡ none
      → All (λ m. IsCalm m.outside) ms
      → IsCalm last
      → let after = (receive encode options ms last c).store in
        (after ≡ save_all (sessions_of options ms) c.store)
        × ((id : String) → rows id after ≡ latest id (sessions_of options ms) (rows id c.store))
  receive-sessions_of ms last c idle calm h =
      let stored = receive-stored ms last c idle calm h in
      (stored, λ id. ap (rows id) stored ∙ rows-save_all id (sessions_of options ms) c.store)
