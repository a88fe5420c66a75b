-- ===== src/Tracer.antt =====
-- packages/agent/src/grackle/python_runtime/tracer.py: the state of the tracer, its events and its
-- options, and the names of the parameters of a code object.
pub mod Callbacks
pub mod Budget
pub mod Bounded
pub mod Nesting
pub mod Nested
pub mod Fires
pub mod Recorded
mod Tests
use grackle.Base.{
  ℕ, ◌+◌, String, List, [], ◌∷◌, ◌++◌, Option, none, some, Bool, true, false, leb, if◌then◌else◌,
  take, get_elem?,
}
use grackle.Base.Ascii.{codes, starts_with}
use grackle.Base.Result.{Exception}
use grackle.ValueRepr.{Value, ValueCaptureLimits, ArgValue}

-- The attributes of a code object that the tracer reads.
pub record Code : Type 0 where
  pub filename : String
  pub firstlineno : ℕ
  pub name : String
  pub argcount : ℕ
  pub kwonlyargcount : ℕ
  pub varnames : List (List ℕ)
  pub has_varargs : Bool
  pub has_varkeywords : Bool

-- The caller's frame in _on_call: whether it runs the code object, and its locals.
pub record Frame : Type 0 where
  pub is_of_code : Bool
  pub locals : List (List ℕ × Value)

pub record TraceOptions : Type 0 where
  pub max_events : Option ℕ
  pub capture_values : Bool
  pub limits : ValueCaptureLimits
  pub capture_first_n : ℕ
  pub redact_values : Bool

pub data EventKind : Type 0 where
  call_event return_event exception_event line_event : EventKind

pub data Metadata : Type 0 where
  no_metadata : Metadata
  exc_type : String → Metadata
  line : ℕ → Metadata

pub data TraceValues : Type 0 where
  args : List ArgValue → TraceValues
  ret : List ℕ → Bool → TraceValues

-- new_trace_event
pub record TraceEvent : Type 0 where
  pub event : EventKind
  pub node_id : String
  pub ts_ns : ℕ
  pub thread_id : ℕ
  pub frame_depth : ℕ
  pub metadata : Metadata
  pub values : Option TraceValues

-- `handed` are the events that the sink was called with.
pub record Tracer : Type 0 where
  pub events : List TraceEvent
  pub handed : List TraceEvent
  pub depth : List (ℕ × ℕ)
  pub count : ℕ
  pub sink_exc : Option Exception
  pub value_capture_counts : List (String × ℕ)

-- `__init__`
unfoldable pub init : Tracer
init = record {
  events = [];
  handed = [];
  depth = [];
  count = 0;
  sink_exc = none;
  value_capture_counts = [];
}

-- A call of the sink: it takes the event, or raises an Exception or another BaseException.
pub data SinkResult : Type 0 where
  accepted interrupted : SinkResult
  failed : Exception → SinkResult

-- How a callback ends: it returns None or DISABLE, or raises.
pub data Outcome : Type 0 where
  returned disabled propagated : Outcome
  raised : Exception → Outcome

-- enforce_event_cap raises.
unfoldable pub is_capped : ℕ → Option ℕ → Bool
is_capped count none = false
is_capped count (some cap) = leb cap count

-- `self._sink_exc = exc`, of the first.
unfoldable pub latch : Exception → Option Exception → Option Exception
latch e none = some e
latch e (some x) = some x

-- The name behind the parameters that a flag announces: the compiler has put one there.
abbrev flagged : Bool → List (List ℕ) → ℕ → List (List ℕ)
flagged false varnames at = []
flagged true varnames at = elim (get_elem? varnames at) [ none ↦ [] | some name ↦ name ∷ [] ]

unfoldable pub without_dots : List (List ℕ) → List (List ℕ)
unfolding starts_with codes
without_dots [] = []
without_dots (name ∷ names) =
    let rest = without_dots names in if starts_with name (codes ".") then rest else name ∷ rest

-- `_declared_arg_names`
unfoldable pub declared_arg_names : Code → List (List ℕ)
unfolding without_dots
declared_arg_names code =
    let argn = code.argcount + code.kwonlyargcount in
    let next = if code.has_varargs then argn + 1 else argn in
    without_dots (
      take argn code.varnames
      ++ (flagged code.has_varargs code.varnames argn
          ++ flagged code.has_varkeywords code.varnames next))

-- The thread of a callback, and the time.monotonic_ns() in it.
pub record Moment : Type 0 where
  pub tid : ℕ
  pub now : ℕ
