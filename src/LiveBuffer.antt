-- ===== src/LiveBuffer.antt =====
-- packages/agent/src/grackle/python_runtime/live_buffer.py: the ring buffer of a live session, and
-- its use in packages/agent/src/grackle/server.py.
pub mod Fresh
pub mod Ingest
pub mod Send
mod Tests
use grackle.Base.{
  zero, ◌+◌, ℕ, suc, String, Option, none, some, List, [], ◌∷◌, ◌++◌, true, false, ltb, length,
}
use grackle.Base.Int.{ℤ, pos, negsuc, ltb_ℤ, sub_ℕ}
use grackle.Base.Result.{Result, ok, raise, value_error, overflow_error, ◌>>=◌}
use grackle.Json.{Float, finite, infinite, nan}

-- An entry of the deque: when it came in, and the message.
abbrev pub Entry : Type 0
Entry = ℕ × String

-- `int(raw)` of the environment variable, none where it raises or the variable is not set.
unfoldable pub trace_buffer_max_events : Option ℤ → Option ℕ
trace_buffer_max_events none = none
trace_buffer_max_events (some (pos zero)) = none
trace_buffer_max_events (some (pos (suc v))) = some (suc v)
trace_buffer_max_events (some (negsuc v)) = none

-- `while ring_buffer and ring_buffer[0][0] < cutoff_ns`
unfoldable pub age_trim : ℤ → List Entry → List Entry
age_trim cutoff_ns [] = []
age_trim cutoff_ns ((ts, raw) ∷ rest) = elim (ltb_ℤ (pos ts) cutoff_ns) [
  | true ↦ age_trim cutoff_ns rest
  | false ↦ (ts, raw) ∷ rest
]

-- `while len(ring_buffer) > max_events`
unfoldable pub count_trim : ℕ → List Entry → List Entry
count_trim max_events [] = []
count_trim max_events (e ∷ rest) = elim (ltb max_events (suc (length rest))) [
  | true ↦ count_trim max_events rest
  | false ↦ e ∷ rest
]

abbrev pub count_cap : Option ℕ → List Entry → List Entry
count_cap none entries = entries
count_cap (some max_events) entries = count_trim max_events entries

-- `now_ns - int(buffer_seconds * 1_000_000_000)`; the product enters as the float it is.
abbrev pub cutoff : ℕ → Float → Result ℤ
cutoff now_ns (finite whole (pos n)) = ok (sub_ℕ now_ns n)
cutoff now_ns (finite whole (negsuc n)) = ok (pos (now_ns + suc n))
cutoff now_ns infinite = raise overflow_error
cutoff now_ns nan = raise value_error

-- The deque after a trim.
unfoldable pub trim_ring_buffer : List Entry → ℕ → Float → Option ℕ → Result (List Entry)
unfolding age_trim count_trim
trim_ring_buffer ring_buffer now_ns window max_events = do
  cutoff_ns ← cutoff now_ns window
  ok (count_cap max_events (age_trim cutoff_ns ring_buffer))

-- `_receive_loop`: a live message is appended, and the buffer trimmed.
unfoldable pub ingest : List Entry → ℕ → String → Float → Option ℕ → Result (List Entry)
unfolding trim_ring_buffer
ingest ring_buffer now_ns msg window max_events =
    trim_ring_buffer (ring_buffer ++ (now_ns, msg) ∷ []) now_ns window max_events
