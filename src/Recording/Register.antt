-- ===== src/Recording/Register.antt =====
-- What a recording sink registers with the session store.
use grackle.Base.{
  subst, arith, ◌==◌, ap, false, ◌∙◌, ℕ, ◌<◌, String, Option, none, some, List, [], ◌∷◌, Bool, true,
  ◌≡◌, refl, length, ◌⊎◌, inl, inr, Bool_split,
}
use grackle.Base.Result.{ok, raise}
use grackle.Recording.Part.{open_part, finalize, Writer, Wrote, Faults, Done}
use grackle.Recording.Salvage.{writes-Holds, accepted, Holds, writes, line_bytes}
use grackle.Recording.Finalize.{opened-Holds, opened, Holds-Salvaged, Salvaged}
use grackle.Recording.Rows.{IsPut, put_session-IsPut}
use grackle.Recording.Sink.{
  start_recording, finalize_recording, RecordingSink, SessionMeta, record_event, discard_recording,
  save_session, put_session,
}

-- The events of a session, handed to the sink one by one.
abbrev pub record_events : List (Option (List ℕ) × Wrote) → RecordingSink → RecordingSink
record_events [] s = s
record_events ((text, result) ∷ rest) s = record_events rest (record_event text result s)

abbrev with_writer : RecordingSink → Writer → RecordingSink
with_writer s w = record s { writer = w }

record_events-writes :
    (events : List (Option (List ℕ) × Wrote)) (s : RecordingSink)
    → record_events events s ≡ with_writer s (writes events s.writer)
unfolding record_event
record_events-writes [] s = refl
record_events-writes ((text, result) ∷ rest) s =
    record_events-writes rest (record_event text result s)

-- The store is as it was; or the session is put into it, with the number of the lines, and the file of
-- the session holds these lines, of which there is at least one.
abbrev pub Registered :
    String → String → List (List ℕ) → List SessionMeta → RecordingSink × List SessionMeta → Type 0
Registered id language lines store (s, store') =
    (store' ≡ store)
    ⊎ (IsPut record { id = id; event_count = length lines; language = language } store store'
        × (s.writer.final ≡ some (line_bytes lines))
        × (s.writer.part ≡ none)
        × (0 < length lines))

save_session-cases :
    (b : Bool) (s : RecordingSink) (store : List SessionMeta)
    → (save_session b s store ≡ store)
      ⊎ (save_session b s store
          ≡ put_session
              record { id = s.session_id; event_count = s.writer.count; language = s.language }
              store)
unfolding save_session
save_session-cases true s store = inl refl
save_session-cases false s store = inr refl

module _ (old : Option (List ℕ)) (lines : List (List ℕ)) (faults : Faults) (save_fails : Bool)
    (s : RecordingSink) (store : List SessionMeta) where
  -- The rest of a finalize, by what the writer's finalize gives.
  abbrev finished : Done → RecordingSink × List SessionMeta
  finished d = elim d.0 [
    | raise e ↦ (discard_recording faults (record s { finalized = true; writer = d.1 }), store)
    | ok a ↦ (
      record s { finalized = true; writer = d.1 },
      save_session save_fails (record s { finalized = true; writer = d.1 }) store,
    )
  ]

  finished-Registered :
      (d : Done)
      → 0 < length lines
      → Salvaged old lines d
      → Registered s.session_id s.language lines store (finished d)
  unfolding save_session
  finished-Registered (raise e, w) h k = inl refl
  finished-Registered (ok a, w) h (final, part, count) =
      let s' = record s { finalized = true; writer = w } in
      elim (save_session-cases save_fails s' store) [
        | inl e ↦ inl e
        | inr e ↦ inr (
          put_session-IsPut _ store _ (
              e
              ∙ ap
                  (λ n.
                    put_session record { id = s.session_id; event_count = n; language = s.language }
                      store)
                  count),
          final,
          part,
          h,
        )
      ]

  -- A finalize of a sink that is not finalized and whose writer holds the lines.
  finalize_recording-Registered :
      s.finalized ≡ false
      → Holds old lines s.writer
      → Registered s.session_id s.language lines store
          (finalize_recording faults save_fails s store)
  unfolding finalize_recording
  finalize_recording-Registered f h =
      Bool_split (Registered s.session_id s.language lines store) s.finalized (s, store) _
        (λ t. inl refl)
        (λ t.
          Bool_split (Registered s.session_id s.language lines store) (s.writer.count == 0) _ _
            (λ z. inl refl)
            (λ z.
              finished-Registered (finalize faults s.writer) (ground arith)
                (Holds-Salvaged old lines faults s.writer h)))

  finished-finalized : (d : Done) → (finished d).0.finalized ≡ true
  unfolding discard_recording
  finished-finalized (raise e, w) = refl
  finished-finalized (ok a, w) = refl

  finalize_recording-finalized : (finalize_recording faults save_fails s store).0.finalized ≡ true
  unfolding finalize_recording discard_recording
  finalize_recording-finalized =
      let Final : RecordingSink × List SessionMeta → Type 0 = λ r. r.0.finalized ≡ true in
      Bool_split Final s.finalized (s, store) _ (λ t. t)
        (λ t.
          Bool_split Final (s.writer.count == 0) _ _ (λ z. refl)
            (λ z. finished-finalized (finalize faults s.writer)))

  finalized_once : s.finalized ≡ true → finalize_recording faults save_fails s store ≡ (s, store)
  unfolding finalize_recording
  finalized_once h = ground arith

abbrev started : String → String → Option (List ℕ) → RecordingSink
started id language old = record {
  session_id = id;
  language = language;
  finalized = false;
  writer = opened old;
}

start_recording-started :
    (id language : String) (old : Option (List ℕ)) (s : RecordingSink)
    → start_recording id language none old ≡ ok s
    → started id language old ≡ s
unfolding start_recording open_part
start_recording-started id language old s e = cc

started-Registered :
    (id language : String) (old : Option (List ℕ)) (events : List (Option (List ℕ) × Wrote))
    (faults : Faults) (save_fails : Bool) (store : List SessionMeta)
    → Registered id language (accepted events) store (
        finalize_recording faults save_fails (record_events events (started id language old)) store)
started-Registered id language old events faults save_fails store =
    rw (record_events-writes events (started id language old)) (
      finalize_recording-Registered old (accepted events) faults save_fails
        (with_writer (started id language old) (writes events (opened old))) store refl
        (writes-Holds old events [] (opened old) refl (opened-Holds old)))

-- A recording of a session, whatever writes and calls fail: a finalize registers the session at
-- most once, with the number of the events before the first failed write, which is at least 1, and
-- only when the file holds exactly the lines of these; then it is the one row of its id, and the rows of other
-- ids stay. Finalizing again changes nothing.
pub recording-Registered :
    (id language : String) (old : Option (List ℕ)) (events : List (Option (List ℕ) × Wrote))
    (faults again : Faults) (save_fails fails_again : Bool) (store : List SessionMeta)
    (s : RecordingSink)
    → start_recording id language none old ≡ ok s
    → let r = finalize_recording faults save_fails (record_events events s) store in
      Registered id language (accepted events) store r
      × (finalize_recording again fails_again r.0 r.1 ≡ r)
recording-Registered id language old events faults again save_fails fails_again store s e =
    let r = finalize_recording faults save_fails (record_events events s) store in
    (
      subst
          (λ v.
            Registered id language (accepted events) store
              (finalize_recording faults save_fails (record_events events v) store))
          (start_recording-started id language old s e)
          (started-Registered id language old events faults save_fails store),
      finalized_once old (accepted events) again fails_again r.0 r.1 (
          finalize_recording-finalized old (accepted events) faults save_fails
            (record_events events s) store),
    )
