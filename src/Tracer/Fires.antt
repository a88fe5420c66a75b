-- ===== src/Tracer/Fires.antt =====
-- What each callback does to the list of events and to the depth of its thread.
use grackle.Base.{ℕ, suc, String, List, [], ◌∷◌, ◌++◌, none, Bool, true, false, ◌≡◌, refl}
use grackle.ValueRepr.{Value, Bytes}
use grackle.Tracer.{
  Code, Frame, TraceOptions, Tracer, exc_type, line, Moment, call_event, return_event,
  exception_event, line_event,
}
use grackle.Tracer.Callbacks.{
  Callback, py_start, py_return, py_unwind, py_raise, py_line, emit, plain_event, on_call,
  on_return, on_unwind, on_raise, on_line, fire, run,
}
use grackle.Tracer.Nesting.{
  Ending, returns, unwinds, ending_callbacks, EndsOn, depth_of, node, end_shapes,
}
use grackle.Base.{subst}
use grackle.Tracer.Nested.{Records, on_call-Records, on_return-Records, on_unwind-Records}

module _ (options : TraceOptions) (free : options.max_events ≡ none) where
  module _ (repr_str : List ℕ → List ℕ) (repr_bytes : Bytes → List ℕ → List ℕ) where
    module _ (is_project_file : String → Bool) (resolve : String → ℕ → String → String) where
      pub run-append :
          (cs ds : List (Callback × Moment)) (t : Tracer)
          → run options none repr_str repr_bytes is_project_file resolve (cs ++ ds) t
            ≡ run options none repr_str repr_bytes is_project_file resolve ds
                (run options none repr_str repr_bytes is_project_file resolve cs t)
      unfolding run
      run-append [] ds t = refl
      run-append ((c, m) ∷ cs) ds t =
          run-append cs ds (fire options none repr_str repr_bytes is_project_file resolve c m t).0

      module _ (tid : ℕ) where
        pub ending-Records :
            (code : Code) (ending : Ending) (d : ℕ) (t : Tracer)
            → EndsOn tid ending
            → is_project_file code.filename ≡ true
            → depth_of tid t ≡ suc d
            → Records tid d (end_shapes is_project_file resolve code d ending) t (
                run options none repr_str repr_bytes is_project_file resolve
                  (ending_callbacks code ending)
                  t)
        unfolding run fire
        ending-Records code (returns v m) d t on project h =
            subst
              (λ k.
                depth_of k t ≡ suc d
                → Records k d ((return_event, node is_project_file resolve code, d) ∷ []) t
                    (on_return options none repr_str repr_bytes is_project_file resolve code v m
                      t).0)
              on
              (on_return-Records options free repr_str repr_bytes is_project_file resolve d t m code
                v project)
              h
        ending-Records code (unwinds m) d t on project h =
            subst
              (λ k.
                depth_of k t ≡ suc d
                → Records k d [] t
                    (on_unwind options none repr_str repr_bytes is_project_file resolve code m t).0)
              on
              (on_unwind-Records options free repr_str repr_bytes is_project_file resolve d t m code
                project)
              h

        pub return-ignored :
            (code : Code) (v : Value) (m : Moment) (t : Tracer)
            → is_project_file code.filename ≡ false
            → (fire options none repr_str repr_bytes is_project_file resolve
                (py_return code v)
                m
                t).0
              ≡ t
        unfolding fire on_return
        return-ignored code v m t other = rw other

        pub unwind-ignored :
            (code : Code) (m : Moment) (t : Tracer)
            → is_project_file code.filename ≡ false
            → (fire options none repr_str repr_bytes is_project_file resolve (py_unwind code) m t).0
              ≡ t
        unfolding fire on_unwind
        unwind-ignored code m t other = rw other

        -- Calls of other code leave the tracer as it is.
        pub ending-ignored :
            (code : Code) (ending : Ending) (t : Tracer)
            → is_project_file code.filename ≡ false
            → run options none repr_str repr_bytes is_project_file resolve
                (ending_callbacks code ending)
                t
              ≡ t
        unfolding run
        ending-ignored code (returns v m) t other = return-ignored code v m t other
        ending-ignored code (unwinds m) t other = unwind-ignored code m t other

        pub call-ignored :
            (code : Code) (frame : Frame) (m : Moment) (t : Tracer)
            → is_project_file code.filename ≡ false
            → (fire options none repr_str repr_bytes is_project_file resolve
                (py_start code frame)
                m
                t).0
              ≡ t
        unfolding fire on_call
        call-ignored code frame m t other = rw other

        pub call-Records :
            (code : Code) (frame : Frame) (m : Moment) (d : ℕ) (t : Tracer)
            → m.tid ≡ tid
            → is_project_file code.filename ≡ true
            → depth_of tid t ≡ d
            → Records tid
                (suc d)
                ((call_event, node is_project_file resolve code, d) ∷ [])
                t
                (fire options none repr_str repr_bytes is_project_file resolve
                  (py_start code frame)
                  m
                  t).0
        unfolding fire
        call-Records code frame m d t on project h =
            subst
              (λ k.
                depth_of k t ≡ d
                → Records k (suc d) ((call_event, node is_project_file resolve code, d) ∷ []) t
                    (on_call options none repr_str repr_bytes is_project_file resolve code frame m
                      t).0)
              on
              (on_call-Records options free repr_str repr_bytes is_project_file resolve d t m code
                frame project)
              h

        pub on_raise-project :
            (code : Code) (x : String) (m : Moment) (t : Tracer)
            → is_project_file code.filename ≡ true
            → (fire options none repr_str repr_bytes is_project_file resolve
                (py_raise code x)
                m
                t).0
              ≡ (emit options none
                  (plain_event options none repr_str repr_bytes is_project_file resolve
                    exception_event
                    (exc_type x)
                    code
                    m
                    t)
                  t).0
        unfolding fire on_raise
        on_raise-project code x m t project = rw project

        pub on_raise-ignored :
            (code : Code) (x : String) (m : Moment) (t : Tracer)
            → is_project_file code.filename ≡ false
            → (fire options none repr_str repr_bytes is_project_file resolve
                (py_raise code x)
                m
                t).0
              ≡ t
        unfolding fire on_raise
        on_raise-ignored code x m t other = rw other

        pub on_line-project :
            (code : Code) (x : ℕ) (m : Moment) (t : Tracer)
            → is_project_file code.filename ≡ true
            → (fire options none repr_str repr_bytes is_project_file resolve (py_line code x) m t).0
              ≡ (emit options none
                  (plain_event options none repr_str repr_bytes is_project_file resolve line_event
                    (line x)
                    code
                    m
                    t)
                  t).0
        unfolding fire on_line
        on_line-project code x m t project = rw project

        pub on_line-ignored :
            (code : Code) (x : ℕ) (m : Moment) (t : Tracer)
            → is_project_file code.filename ≡ false
            → (fire options none repr_str repr_bytes is_project_file resolve (py_line code x) m t).0
              ≡ t
        unfolding fire on_line
        on_line-ignored code x m t other = rw other
