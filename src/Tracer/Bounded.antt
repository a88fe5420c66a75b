-- ===== src/Tracer/Bounded.antt =====
-- Every callback keeps the bounds of the tracer.
use grackle.Base.{
  ℕ, ◌+◌, ◌-◌, String, List, [], ◌∷◌, Option, none, Bool, true, ◌≡◌, refl, ◌≢◌, arith, Bool-cases,
  inl, inr,
}
use grackle.Base.Dict.{get, put, get_default, number_key}
use grackle.Base.Text.{string_key}
use grackle.ValueRepr.{Value, Bytes}
use grackle.Tracer.{Code, Frame, TraceOptions, TraceEvent, Tracer, SinkResult, Moment, init}
use grackle.Tracer.Callbacks.{
  Callback, py_start, py_return, py_unwind, py_raise, py_line, budget_remaining, call_values,
  return_values, charged, fire, run,
}
use grackle.Tracer.Budget.{captured, IsBounded, charged-IsBounded, with_depth-IsBounded}

module _ (options : TraceOptions) (sink : Option (TraceEvent → SinkResult)) where
  module _ (repr_str : List ℕ → List ℕ) (repr_bytes : Bytes → List ℕ → List ℕ) where
    call_values-budget :
        (code : Code) (frame : Frame) (node_id : String) (t : Tracer)
        → call_values options sink repr_str repr_bytes code frame node_id t ≢ none
        → budget_remaining options sink node_id t ≡ true
    unfolding call_values
    call_values-budget code frame node_id t h =
        elim (Bool-cases (budget_remaining options sink node_id t)) [
          | inl e ↦ e
          | inr e ↦ absurd (h (ground arith))
        ]

    return_values-budget :
        (v : Value) (node_id : String) (t : Tracer)
        → return_values options sink repr_str repr_bytes v node_id t ≢ none
        → budget_remaining options sink node_id t ≡ true
    unfolding return_values
    return_values-budget v node_id t h =
        elim (Bool-cases (budget_remaining options sink node_id t)) [
          | inl e ↦ e
          | inr e ↦ absurd (h (ground arith))
        ]

    module _ (is_project_file : String → Bool) (resolve : String → ℕ → String → String) where
      fire-IsBounded :
          (c : Callback) (m : Moment) (t : Tracer)
          → IsBounded options sink t
          → IsBounded options sink
              (fire options sink repr_str repr_bytes is_project_file resolve c m t).0
      unfolding fire charged
      fire-IsBounded (py_start code frame) m t h =
          let d = put m.tid (get_default m.tid 0 t.depth + 1) t.depth in
          elim (Bool-cases (is_project_file code.filename)) [
            | inl e ↦ rw e (
                charged-IsBounded options sink _ (record t { depth = d })
                  (call_values-budget code frame (resolve code.filename code.firstlineno code.name)
                    (record t { depth = d }))
                  (with_depth-IsBounded options sink t d h))
            | inr e ↦ rw e h
          ]
      fire-IsBounded (py_return code v) m t h =
          let d = put m.tid (get_default m.tid 1 t.depth - 1) t.depth in
          elim (Bool-cases (is_project_file code.filename)) [
            | inl e ↦ rw e (
                charged-IsBounded options sink _ (record t { depth = d })
                  (return_values-budget v (resolve code.filename code.firstlineno code.name)
                    (record t { depth = d }))
                  (with_depth-IsBounded options sink t d h))
            | inr e ↦ rw e h
          ]
      fire-IsBounded (py_unwind code) m t h = elim (Bool-cases (is_project_file code.filename)) [
        | inl e ↦ rw e (
            with_depth-IsBounded options sink t
              (put m.tid (get_default m.tid 1 t.depth - 1) t.depth) h)
        | inr e ↦ rw e h
      ]
      fire-IsBounded (py_raise code e) m t h = elim (Bool-cases (is_project_file code.filename)) [
        | inl e ↦ rw e (charged-IsBounded options sink _ t (λ n. absurd (n refl)) h)
        | inr e ↦ rw e h
      ]
      fire-IsBounded (py_line code n) m t h = elim (Bool-cases (is_project_file code.filename)) [
        | inl e ↦ rw e (charged-IsBounded options sink _ t (λ n. absurd (n refl)) h)
        | inr e ↦ rw e h
      ]

      run_from-IsBounded :
          (cs : List (Callback × Moment)) (t : Tracer)
          → IsBounded options sink t
          → IsBounded options sink
              (run options sink repr_str repr_bytes is_project_file resolve cs t)
      unfolding run
      run_from-IsBounded [] t h = h
      run_from-IsBounded ((c, m) ∷ cs) t h = run_from-IsBounded cs _ (fire-IsBounded c m t h)

      -- Whatever callbacks the interpreter makes, one after the other and on whatever threads, from a fresh
      -- tracer: no more than max_events events are counted; those in the list and those that the sink was called
      -- with are as many as were counted; and of each node at most capture_first_n of these carry values.
      -- Callbacks that run at the same time are not covered.
      pub run-IsBounded :
          (cs : List (Callback × Moment))
          → IsBounded options sink
              (run options sink repr_str repr_bytes is_project_file resolve cs init)
      unfolding init captured get
      run-IsBounded cs = run_from-IsBounded cs init (record {
        within_cap = λ m e. omega arith;
        listed = omega arith;
        budget = λ n. omega arith;
        captures = λ n. omega arith;
      })
