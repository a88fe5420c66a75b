-- ===== src/Tracer/Nested.antt =====
-- Nested calls on one thread are recorded with the depth of their frames.
use grackle.Base.{
  ℕ, suc, ◌+◌, ◌-◌, String, List, [], ◌∷◌, ◌++◌, Option, none, some, Bool, true, map, ◌≡◌, refl,
  arith, sym, ap, ◌∙◌,
}
use mathlib.Core.List.{append_assoc, append-nil, map-append}
use mathlib.Core.Logic.{if_pos}
use grackle.Base.Dict.{get, put, get_default, get_default-put, number_key}
use grackle.ValueRepr.{Value, Bytes}
use grackle.Tracer.{
  Code, Frame, TraceOptions, TraceValues, TraceEvent, Tracer, Metadata, Moment, is_capped,
  EventKind, call_event, return_event,
}
use grackle.Tracer.Callbacks.{
  emit, charged, call_values, return_values, frame_event, plain_event, deliver, on_call, on_return,
  on_unwind,
}
use grackle.Tracer.Nesting.{Shape, shape, depth_of, node}

or_one :
    (d : ℕ) (o : Option ℕ)
    → elim o [ none ↦ 0 | some v ↦ v ] ≡ suc d
    → elim o [ none ↦ 1 | some v ↦ v ] - 1 ≡ d
or_one d none h = omega arith
or_one d (some v) h = omega arith

-- A depth above 0 is in the dict.
default_one :
    (tid d : ℕ) (m : List (ℕ × ℕ)) → get_default tid 0 m ≡ suc d → get_default tid 1 m - 1 ≡ d
default_one tid d m h = or_one d (get tid m) h

depth-put : (tid : ℕ) (v : ℕ) (m : List (ℕ × ℕ)) → get_default tid 0 (put tid v m) ≡ v
depth-put tid v m = rw (get_default-put tid tid 0 v m, if_pos _ refl) refl

charged_shape :
    (values : Option TraceValues) (node_id : String) (t : Tracer)
    → ((charged values node_id t).events ≡ t.events) × ((charged values node_id t).depth ≡ t.depth)
unfolding charged
charged_shape none node_id t = (refl, refl)
charged_shape (some v) node_id t = (refl, refl)

-- From one state to another: the shapes that are added, and the depth at the end.
abbrev pub Records : ℕ → ℕ → List Shape → Tracer → Tracer → Type 0
Records tid d ss t t' = (map shape t'.events ≡ map shape t.events ++ ss) × (depth_of tid t' ≡ d)

pub Records-trans :
    (tid d e : ℕ) (ss us : List Shape) (t t' t2 : Tracer)
    → Records tid d ss t t'
    → Records tid e us t' t2
    → Records tid e (ss ++ us) t t2
Records-trans tid d e ss us t t' t2 (h, _) (k, l) =
    (rw (k, h) (append_assoc (map shape t.events) ss us), l)

module _ (options : TraceOptions) (free : options.max_events ≡ none) where
  -- Without a cap and a sink an event is appended.
  emit_plain :
      (event : TraceEvent) (t : Tracer) (tid : ℕ)
      → Records tid (depth_of tid t) (shape event ∷ []) t (emit options none event t).0
  unfolding emit is_capped deliver
  emit_plain event t tid = rw free (map-append shape t.events (event ∷ []), refl)

  emit-charged :
      (event : TraceEvent) (t : Tracer) (tid : ℕ)
      → Records tid
          (depth_of tid t)
          (shape event ∷ [])
          t
          (emit options none event (charged event.values event.node_id t)).0
  emit-charged event t tid =
      let kept = charged_shape event.values event.node_id t in
      let (e, d) = emit_plain event (charged event.values event.node_id t) tid in
      (e ∙ ap (λ es. map shape es ++ shape event ∷ []) kept.0, d ∙ ap (get_default tid 0) kept.1)

  module _ (repr_str : List ℕ → List ℕ) (repr_bytes : Bytes → List ℕ → List ℕ) where
    module _ (is_project_file : String → Bool) (resolve : String → ℕ → String → String) where
      module _ (d : ℕ) (t : Tracer) (m : Moment) (code : Code) where
        pub on_call-Records :
            (frame : Frame)
            → is_project_file code.filename ≡ true
            → depth_of m.tid t ≡ d
            → Records m.tid
                (suc d)
                ((call_event, node is_project_file resolve code, d) ∷ [])
                t
                (on_call options none repr_str repr_bytes is_project_file resolve code frame m t).0
        unfolding on_call
        on_call-Records frame project h =
            let at = depth_of m.tid t in
            let entered : Tracer = record t { depth = put m.tid (at + 1) t.depth } in
            let values =
              call_values options none repr_str repr_bytes code frame
                (node is_project_file resolve code) entered in
            let r =
              emit-charged
                (frame_event options none repr_str repr_bytes is_project_file resolve call_event
                  values code m at)
                entered m.tid in
            rw project (
              r.0
                  ∙ ap
                      (λ k.
                        map shape t.events
                        ++ (call_event, node is_project_file resolve code, k) ∷ [])
                      h,
              r.1 ∙ (depth-put m.tid (at + 1) t.depth ∙ omega (arith, h)),
            )

        pub on_return-Records :
            (v : Value)
            → is_project_file code.filename ≡ true
            → depth_of m.tid t ≡ suc d
            → Records m.tid d
                ((return_event, node is_project_file resolve code, d) ∷ [])
                t
                (on_return options none repr_str repr_bytes is_project_file resolve code v m t).0
        unfolding on_return
        on_return-Records v project h =
            let at = get_default m.tid 1 t.depth - 1 in
            let left : Tracer = record t { depth = put m.tid at t.depth } in
            let values =
              return_values options none repr_str repr_bytes v (node is_project_file resolve code)
                left in
            let r =
              emit-charged
                (frame_event options none repr_str repr_bytes is_project_file resolve return_event
                  values code m at)
                left m.tid in
            let same = default_one m.tid d t.depth h in
            rw project (
              r.0
                  ∙ ap
                      (λ k.
                        map shape t.events
                        ++ (return_event, node is_project_file resolve code, k) ∷ [])
                      same,
              r.1 ∙ (depth-put m.tid at t.depth ∙ same),
            )

        pub on_unwind-Records :
            is_project_file code.filename ≡ true
            → depth_of m.tid t ≡ suc d
            → Records m.tid d [] t
                (on_unwind options none repr_str repr_bytes is_project_file resolve code m t).0
        unfolding on_unwind
        on_unwind-Records project h =
            let at = get_default m.tid 1 t.depth - 1 in
            rw project (
              sym (append-nil (map shape t.events)),
              depth-put m.tid at t.depth ∙ default_one m.tid d t.depth h,
            )

        -- Exceptions and lines.
        pub plain-Records :
            (kind : EventKind) (metadata : Metadata)
            → depth_of m.tid t ≡ d
            → Records m.tid d
                ((kind, node is_project_file resolve code, d) ∷ [])
                t
                (emit options none
                  (plain_event options none repr_str repr_bytes is_project_file resolve kind
                    metadata code m t)
                  t).0
        plain-Records kind metadata h =
            let r =
              emit_plain
                (plain_event options none repr_str repr_bytes is_project_file resolve kind metadata
                  code m t)
                t m.tid in
            (
              r.0
                  ∙ ap
                      (λ k. map shape t.events ++ (kind, node is_project_file resolve code, k) ∷ [])
                      h,
              r.1 ∙ h,
            )
