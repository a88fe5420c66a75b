-- ===== src/Tracer/Callbacks.antt =====
-- packages/agent/src/grackle/python_runtime/tracer.py: the callbacks as functions of the state. What
-- the interpreter hands to a callback, the clock and the thread are arguments; the resolver and the
-- sink are parameters, and the formatter raises on no value.
use grackle.Base.{
  ℕ, ◌+◌, ◌-◌, String, List, [], ◌∷◌, ◌++◌, Option, none, some, Bool, ltb, ◌&&◌, if◌then◌else◌,
}
use grackle.Base.Dict.{get, put, get_default, number_key, list_key}
use grackle.Base.Text.{string_key}
use grackle.Base.Result.{cap_exceeded}
use grackle.ValueRepr.{Value, Bytes, ArgValue}
use grackle.ValueRepr.Format.{safe_repr, format_arg}
use grackle.Tracer.{
  Code, Frame, TraceOptions, EventKind, call_event, return_event, exception_event, line_event,
  Metadata, no_metadata, exc_type, line, TraceValues, args, ret, TraceEvent, Tracer, SinkResult,
  accepted, interrupted, failed, Outcome, returned, disabled, propagated, raised, is_capped, latch,
  declared_arg_names, Moment,
}

-- A call of a callback, with what the interpreter hands to it.
pub data Callback : Type 0 where
  py_start : Code → Frame → Callback
  py_return : Code → Value → Callback
  py_unwind : Code → Callback
  py_raise : Code → String → Callback
  py_line : Code → ℕ → Callback

-- The call of the sink in `_emit`.
unfoldable pub hand_over : SinkResult → Tracer → Tracer × Outcome
unfolding latch
hand_over accepted t = (t, returned)
hand_over interrupted t = (t, propagated)
hand_over (failed e) t = (record t { sink_exc = latch e t.sink_exc }, raised e)

-- The event goes to the sink, or to the list.
unfoldable pub deliver : Option (TraceEvent → SinkResult) → TraceEvent → Tracer → Tracer × Outcome
unfolding hand_over
deliver none event t = (record t { events = t.events ++ event ∷ [] }, returned)
deliver (some call) event t = hand_over (call event) (record t { handed = t.handed ++ event ∷ [] })

-- `_consume_budget`
unfoldable pub consume_budget : String → Tracer → Tracer
consume_budget node_id t = record t {
  value_capture_counts =
      put node_id (get_default node_id 0 t.value_capture_counts + 1) t.value_capture_counts;
}

-- The budget is consumed for values that were captured.
unfoldable pub charged : Option TraceValues → String → Tracer → Tracer
unfolding consume_budget
charged none node_id t = t
charged (some values) node_id t = consume_budget node_id t

module _ (options : TraceOptions) (sink : Option (TraceEvent → SinkResult)) where
  -- `_emit`
  unfoldable pub emit : TraceEvent → Tracer → Tracer × Outcome
  unfolding is_capped deliver
  emit event t =
      if is_capped t.count options.max_events
      then (t, raised cap_exceeded)
      else deliver sink event (record t { count = t.count + 1 })

  -- `_budget_remaining`
  unfoldable pub budget_remaining : String → Tracer → Bool
  budget_remaining node_id t =
      ltb (get_default node_id 0 t.value_capture_counts) options.capture_first_n

  module _ (repr_str : List ℕ → List ℕ) (repr_bytes : Bytes → List ℕ → List ℕ) where
    -- The loop of `_read_declared_args`.
    unfoldable pub read_args : List (List ℕ) → List (List ℕ × Value) → List ArgValue
    read_args [] locals = []
    read_args (name ∷ names) locals =
        let rest = read_args names locals in
        elim (get name locals) [
          | none ↦ rest
          | some v ↦
              format_arg repr_str repr_bytes options.limits name none v options.redact_values ∷ rest
        ]

    -- The values of a call event.
    unfoldable pub call_values : Code → Frame → String → Tracer → Option TraceValues
    unfolding budget_remaining read_args declared_arg_names
    call_values code frame node_id t =
        if options.capture_values && (budget_remaining node_id t && frame.is_of_code)
        then elim (read_args (declared_arg_names code) frame.locals) [
          | [] ↦ none
          | a ∷ as' ↦ some (args (a ∷ as'))
        ]
        else none

    -- The values of a return event.
    unfoldable pub return_values : Value → String → Tracer → Option TraceValues
    unfolding budget_remaining
    return_values retval node_id t =
        let r = safe_repr repr_str repr_bytes options.limits none retval in
        if options.capture_values && budget_remaining node_id t
        then some (ret r.text r.truncated)
        else none

    module _ (is_project_file : String → Bool) (resolve : String → ℕ → String → String) where
      abbrev pub node_of : Code → String
      node_of code = resolve code.filename code.firstlineno code.name

      -- An event of `_on_call` or `_on_return`.
      abbrev pub frame_event : EventKind → Option TraceValues → Code → Moment → ℕ → TraceEvent
      frame_event kind values code m depth = record {
        event = kind;
        node_id = node_of code;
        ts_ns = m.now;
        thread_id = m.tid;
        frame_depth = depth;
        metadata = no_metadata;
        values = values;
      }

      unfoldable pub on_call : Code → Frame → Moment → Tracer → Tracer × Outcome
      unfolding call_values charged emit
      on_call code frame m t =
          let depth = get_default m.tid 0 t.depth in
          let entered : Tracer = record t { depth = put m.tid (depth + 1) t.depth } in
          let values = call_values code frame (node_of code) entered in
          if is_project_file code.filename
          then emit (frame_event call_event values code m depth)
              (charged values (node_of code) entered)
          else (t, disabled)

      unfoldable pub on_return : Code → Value → Moment → Tracer → Tracer × Outcome
      unfolding return_values charged emit
      on_return code retval m t =
          let depth = get_default m.tid 1 t.depth - 1 in
          let left : Tracer = record t { depth = put m.tid depth t.depth } in
          let values = return_values retval (node_of code) left in
          if is_project_file code.filename
          then emit (frame_event return_event values code m depth)
              (charged values (node_of code) left)
          else (t, returned)

      unfoldable pub on_unwind : Code → Moment → Tracer → Tracer × Outcome
      on_unwind code m t =
          let depth = get_default m.tid 1 t.depth - 1 in
          if is_project_file code.filename
          then (record t { depth = put m.tid depth t.depth }, returned)
          else (t, returned)

      -- An event of `_on_raise` or `_on_line`.
      abbrev pub plain_event : EventKind → Metadata → Code → Moment → Tracer → TraceEvent
      plain_event kind metadata code m t = record {
        event = kind;
        node_id = node_of code;
        ts_ns = m.now;
        thread_id = m.tid;
        frame_depth = get_default m.tid 0 t.depth;
        metadata = metadata;
        values = none;
      }

      unfoldable pub on_raise : Code → String → Moment → Tracer → Tracer × Outcome
      unfolding emit
      on_raise code exception m t =
          if is_project_file code.filename
          then emit (plain_event exception_event (exc_type exception) code m t) t
          else (t, returned)

      unfoldable pub on_line : Code → ℕ → Moment → Tracer → Tracer × Outcome
      unfolding emit
      on_line code line_number m t =
          if is_project_file code.filename
          then emit (plain_event line_event (line line_number) code m t) t
          else (t, returned)

      -- The callbacks that `_start` registers.
      unfoldable pub fire : Callback → Moment → Tracer → Tracer × Outcome
      unfolding on_call on_return on_unwind on_raise on_line
      fire (py_start code frame) m t = on_call code frame m t
      fire (py_return code retval) m t = on_return code retval m t
      fire (py_unwind code) m t = on_unwind code m t
      fire (py_raise code exception) m t = on_raise code exception m t
      fire (py_line code line_number) m t = on_line code line_number m t

      -- The state after the callbacks that the interpreter makes.
      unfoldable pub run : List (Callback × Moment) → Tracer → Tracer
      run [] t = t
      run ((c, m) ∷ cs) t = run cs (fire c m t).0
