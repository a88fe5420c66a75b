-- ===== src/Tracer/Recorded.antt =====
-- A whole activity of one thread is recorded as expected.
use grackle.Base.{
  ℕ, suc, String, List, [], ◌∷◌, ◌++◌, none, Bool, map, ◌≡◌, refl, Bool-cases, inl, inr, sym,
}
use mathlib.Core.List.{append-nil}
use grackle.ValueRepr.{Bytes}
use grackle.Tracer.{TraceOptions, Tracer, exc_type, line, call_event, exception_event, line_event}
use grackle.Tracer.Callbacks.{py_start, emit, plain_event, fire, run}
use grackle.Tracer.Nesting.{
  Activity, calls, raises, runs_line, Activities, idle, act, ending_callbacks, callbacks_of,
  callbacks_in, OnThread, AllOnThread, shape, depth_of, node, end_shapes, expected, expected_all,
}
use grackle.Base.{subst}
use grackle.Tracer.Nested.{Records, Records-trans, plain-Records}
use grackle.Tracer.Fires.{
  run-append, ending-Records, ending-ignored, call-ignored, call-Records, on_raise-project,
  on_raise-ignored, on_line-project, on_line-ignored,
}

module _ (options : TraceOptions) (free : options.max_events ≡ none) where
  module _ (repr_str : List ℕ → List ℕ) (repr_bytes : Bytes → List ℕ → List ℕ) where
    module _ (is_project_file : String → Bool) (resolve : String → ℕ → String → String) where
      module _ (tid : ℕ) where
        mutual
          unfolding callbacks_of expected OnThread run

          activity-Records :
              (a : Activity) (d : ℕ) (t : Tracer)
              → OnThread tid a
              → depth_of tid t ≡ d
              → Records tid d
                  (expected is_project_file resolve d a)
                  t
                  (run options none repr_str repr_bytes is_project_file resolve (callbacks_of a) t)
          activity-Records (calls code frame m body ending) d t on h =
              let t1 =
                (fire options none repr_str repr_bytes is_project_file resolve (py_start code frame)
                  m t).0 in
              let t2 =
                run options none repr_str repr_bytes is_project_file resolve (callbacks_in body)
                  t1 in
              elim (Bool-cases (is_project_file code.filename)) [
                | inl project ↦
                    let c1 =
                      call-Records options free repr_str repr_bytes is_project_file resolve tid code
                        frame m d t on.0 project h in
                    let c2 = activities-Records body (suc d) t1 on.1 c1.1 in
                    let c3 =
                      ending-Records options free repr_str repr_bytes is_project_file resolve tid
                        code ending d t2 on.2 project c2.1 in
                    rw
                      (
                        project,
                        run-append options free repr_str repr_bytes is_project_file resolve
                            (callbacks_in body) (ending_callbacks code ending) t1,
                      )
                      (Records-trans tid (suc d) d
                        ((call_event, node is_project_file resolve code, d) ∷ [])
                        (expected_all is_project_file resolve (suc d) body
                          ++ end_shapes is_project_file resolve code d ending)
                        t t1
                        (run options none repr_str repr_bytes is_project_file resolve
                          (ending_callbacks code ending) t2)
                        c1
                        (Records-trans tid (suc d) d
                          (expected_all is_project_file resolve (suc d) body)
                          (end_shapes is_project_file resolve code d ending) t1 t2
                          (run options none repr_str repr_bytes is_project_file resolve
                            (ending_callbacks code ending) t2)
                          c2 c3))
                | inr other ↦
                    rw
                      (
                        other,
                        run-append options free repr_str repr_bytes is_project_file resolve
                            (callbacks_in body) (ending_callbacks code ending) t1,
                        ending-ignored options free repr_str repr_bytes is_project_file resolve tid
                            code ending t2 other,
                        call-ignored options free repr_str repr_bytes is_project_file resolve tid
                            code frame m t other,
                      )
                      (activities-Records body d t on.1 h)
              ]
          activity-Records (raises code e m) d t on h =
              elim (Bool-cases (is_project_file code.filename)) [
                | inl project ↦
                    rw
                      (
                        project,
                        on_raise-project options free repr_str repr_bytes is_project_file resolve
                            tid code e m t project,
                      )
                      (subst
                        (λ k.
                          depth_of k t ≡ d
                          → Records k d
                              ((exception_event, node is_project_file resolve code, d) ∷ []) t
                              (emit options none
                                (plain_event options none repr_str repr_bytes is_project_file
                                  resolve exception_event (exc_type e) code m t)
                                t).0)
                        on
                        (plain-Records options free repr_str repr_bytes is_project_file resolve d t
                          m code exception_event (exc_type e))
                        h)
                | inr other ↦
                    rw
                      (
                        other,
                        on_raise-ignored options free repr_str repr_bytes is_project_file resolve
                            tid code e m t other,
                      )
                      (sym (append-nil (map shape t.events)), h)
              ]
          activity-Records (runs_line code n m) d t on h =
              elim (Bool-cases (is_project_file code.filename)) [
                | inl project ↦
                    rw
                      (
                        project,
                        on_line-project options free repr_str repr_bytes is_project_file resolve tid
                            code n m t project,
                      )
                      (subst
                        (λ k.
                          depth_of k t ≡ d
                          → Records k d ((line_event, node is_project_file resolve code, d) ∷ []) t
                              (emit options none
                                (plain_event options none repr_str repr_bytes is_project_file
                                  resolve line_event (line n) code m t)
                                t).0)
                        on
                        (plain-Records options free repr_str repr_bytes is_project_file resolve d t
                          m code line_event (line n))
                        h)
                | inr other ↦
                    rw
                      (
                        other,
                        on_line-ignored options free repr_str repr_bytes is_project_file resolve tid
                            code n m t other,
                      )
                      (sym (append-nil (map shape t.events)), h)
              ]

          activities-Records :
              (as' : Activities) (d : ℕ) (t : Tracer)
              → AllOnThread tid as'
              → depth_of tid t ≡ d
              → Records tid d (expected_all is_project_file resolve d as') t (
                  run options none repr_str repr_bytes is_project_file resolve (callbacks_in as') t)
          activities-Records idle d t on h = (sym (append-nil (map shape t.events)), h)
          activities-Records (act a as') d t on h =
              let c1 = activity-Records a d t on.0 h in
              let t1 =
                run options none repr_str repr_bytes is_project_file resolve (callbacks_of a) t in
              let c2 = activities-Records as' d t1 on.1 c1.1 in
              rw
                (run-append options free repr_str repr_bytes is_project_file resolve
                  (callbacks_of a) (callbacks_in as') t)
                (Records-trans tid d d (expected is_project_file resolve d a)
                  (expected_all is_project_file resolve d as') t t1
                  (run options none repr_str repr_bytes is_project_file resolve (callbacks_in as')
                    t1)
                  c1 c2)

      -- Without an event cap and a sink, what happens on one thread from a depth d on adds to the list
      -- exactly the calls, returns, exceptions and lines of project code in order, each call and return
      -- with the number of project calls around it as its depth and each exception and line with the
      -- number of project calls it is in; and the depth is d again at the end, also where exceptions
      -- end calls.
      pub run-Recorded :
          (tid : ℕ) (as' : Activities) (t : Tracer)
          → AllOnThread tid as'
          → (map shape
                (run options none repr_str repr_bytes is_project_file resolve
                  (callbacks_in as')
                  t).events
              ≡ map shape t.events ++ expected_all is_project_file resolve (depth_of tid t) as')
            × (depth_of tid (
                  run options none repr_str repr_bytes is_project_file resolve (callbacks_in as') t)
                ≡ depth_of tid t)
      run-Recorded tid as' t on = activities-Records tid as' (depth_of tid t) t on refl
