-- ===== src/Tracer/Tests.antt =====
-- packages/agent/src/grackle/python_runtime/tracer.py: runs, and the theorems at concrete callbacks.
use grackle.Base.{ℕ, String, List, [], ◌∷◌, ◌++◌, none, Bool, true, false, map, ◌≡◌, refl, not}
use grackle.Base.Ascii.{codes}
use grackle.Base.Text.{same_text}
use grackle.ValueRepr.{integer, Bytes}
use grackle.Tracer.{
  Code, Frame, TraceOptions, Moment, init, call_event, return_event, exception_event,
}
use grackle.Tracer.Callbacks.{run}
use grackle.Tracer.Budget.{IsBounded}
use grackle.Tracer.Bounded.{run-IsBounded}
use grackle.Tracer.Nesting.{
  returns, unwinds, calls, raises, Activities, idle, act, callbacks_in, shape, depth_of, OnThread,
  expected_all,
}
use grackle.Tracer.Recorded.{run-Recorded}

abbrev quote : List ℕ → List ℕ
quote s = codes "'" ++ (s ++ codes "'")

abbrev quote_bytes : Bytes → List ℕ → List ℕ
quote_bytes k s = codes "b" ++ quote s

abbrev options : TraceOptions
options = record {
  max_events = none;
  capture_values = true;
  limits = record { max_len = 20; max_items = 3; max_depth = 2 };
  capture_first_n = 1;
  redact_values = true;
}

abbrev is_project_file : String → Bool
is_project_file name = not (same_text name "lib.py")

abbrev resolve : String → ℕ → String → String
resolve file line name = name

abbrev code_of : String → String → Code
code_of file name = record {
  filename = file;
  firstlineno = 1;
  name = name;
  argcount = 1;
  kwonlyargcount = 0;
  varnames = codes "x" ∷ [];
  has_varargs = false;
  has_varkeywords = false;
}

abbrev frame : Frame
frame = record { is_of_code = true; locals = (codes "x", integer (codes "5")) ∷ [] }

abbrev at : ℕ → Moment
at now = record { tid = 7; now = now }

-- main calls a library function, which calls back; the callback raises, and main returns.
abbrev session : Activities
session =
    act
      (calls (code_of "app.py" "main") frame (at 1)
        (act
          (calls (code_of "lib.py" "sort") frame (at 2)
            (act
              (calls (code_of "app.py" "key") frame (at 3)
                (act (raises (code_of "app.py" "key") "ValueError" (at 4)) idle) (unwinds (at 5)))
              idle)
            (unwinds (at 6)))
          idle)
        (returns (integer (codes "0")) (at 7)))
      idle

session_shapes :
    expected_all is_project_file resolve 0 session
    ≡ (call_event, "main", 0)
      ∷ (call_event, "key", 1)
      ∷ (exception_event, "key", 2)
      ∷ (return_event, "main", 0)
      ∷ []
unfolding expected_all
session_shapes = refl

run-Recorded_example :
    (map shape
        (run options none quote quote_bytes is_project_file resolve
          (callbacks_in session)
          init).events
      ≡ map shape init.events ++ expected_all is_project_file resolve (depth_of 7 init) session)
    × (depth_of 7
          (run options none quote quote_bytes is_project_file resolve (callbacks_in session) init)
        ≡ depth_of 7 init)
unfolding OnThread
run-Recorded_example =
    run-Recorded options refl quote quote_bytes is_project_file resolve 7 session init
      ((refl, ((refl, ((refl, (refl, tt), refl), tt), refl), tt), refl), tt)

run-IsBounded_example :
    IsBounded options none
      (run options none quote quote_bytes is_project_file resolve (callbacks_in session) init)
run-IsBounded_example =
    run-IsBounded options none quote quote_bytes is_project_file resolve (callbacks_in session)
