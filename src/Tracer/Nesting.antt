-- ===== src/Tracer/Nesting.antt =====
-- What the tracer records of nested calls on one thread.
use grackle.Base.{ℕ, suc, String, List, [], ◌∷◌, ◌++◌, Bool, ◌≡◌, if◌then◌else◌}
use grackle.Base.Dict.{get_default, number_key}
use grackle.ValueRepr.{Value}
use grackle.Tracer.{
  Code, Frame, TraceEvent, Tracer, Moment, EventKind, call_event, return_event, exception_event,
  line_event,
}
use grackle.Tracer.Callbacks.{Callback, py_start, py_return, py_unwind, py_raise, py_line}

-- How a call ends: it returns a value, or an exception leaves it.
pub data Ending : Type 0 where
  returns : Value → Moment → Ending
  unwinds : Moment → Ending

-- What happens within a frame: calls with what happens within them, exceptions and lines.
mutual
  pub data Activity : Type 0 where
    calls : Code → Frame → Moment → Activities → Ending → Activity
    raises : Code → String → Moment → Activity
    runs_line : Code → ℕ → Moment → Activity

  pub data Activities : Type 0 where
    idle : Activities
    act : Activity → Activities → Activities

abbrev pub ending_callbacks : Code → Ending → List (Callback × Moment)
ending_callbacks code (returns v m) = (py_return code v, m) ∷ []
ending_callbacks code (unwinds m) = (py_unwind code, m) ∷ []

-- The callbacks that the interpreter makes, in order.
unfoldable mutual
  pub callbacks_of : Activity → List (Callback × Moment)
  callbacks_of (calls code frame m body ending) =
      (py_start code frame, m) ∷ (callbacks_in body ++ ending_callbacks code ending)
  callbacks_of (raises code e m) = (py_raise code e, m) ∷ []
  callbacks_of (runs_line code n m) = (py_line code n, m) ∷ []

  pub callbacks_in : Activities → List (Callback × Moment)
  callbacks_in idle = []
  callbacks_in (act a as') = callbacks_of a ++ callbacks_in as'

-- All of it happens on one thread.
abbrev pub EndsOn : ℕ → Ending → Type 0
EndsOn tid (returns v m) = m.tid ≡ tid
EndsOn tid (unwinds m) = m.tid ≡ tid

unfoldable mutual
  pub OnThread : ℕ → Activity → Type 0
  OnThread tid (calls code frame m body ending) =
      (m.tid ≡ tid) × AllOnThread tid body × EndsOn tid ending
  OnThread tid (raises code e m) = m.tid ≡ tid
  OnThread tid (runs_line code n m) = m.tid ≡ tid

  pub AllOnThread : ℕ → Activities → Type 0
  AllOnThread tid idle = Unit {0}
  AllOnThread tid (act a as') = OnThread tid a × AllOnThread tid as'

-- An event without its time, thread and values.
abbrev pub Shape : Type 0
Shape = EventKind × String × ℕ

abbrev pub shape : TraceEvent → Shape
shape e = (e.event, e.node_id, e.frame_depth)

abbrev pub depth_of : ℕ → Tracer → ℕ
depth_of tid t = get_default tid 0 t.depth

module _ (is_project_file : String → Bool) (resolve : String → ℕ → String → String) where
  abbrev pub node : Code → String
  node code = resolve code.filename code.firstlineno code.name

  abbrev pub end_shapes : Code → ℕ → Ending → List Shape
  end_shapes code d (returns v m) = (return_event, node code, d) ∷ []
  end_shapes code d (unwinds m) = []

  -- The events to expect at a depth: a project call is one deeper within, other calls leave no trace.
  unfoldable mutual
    pub expected : ℕ → Activity → List Shape
    expected d (calls code frame m body ending) =
        if is_project_file code.filename
        then (call_event, node code, d) ∷ (expected_all (suc d) body ++ end_shapes code d ending)
        else expected_all d body
    expected d (raises code e m) =
        if is_project_file code.filename then (exception_event, node code, d) ∷ [] else []
    expected d (runs_line code n m) =
        if is_project_file code.filename then (line_event, node code, d) ∷ [] else []

    pub expected_all : ℕ → Activities → List Shape
    expected_all d idle = []
    expected_all d (act a as') = expected d a ++ expected_all d as'
