-- ===== src/LiveBuffer/Tests.antt =====
-- packages/agent/src/grackle/python_runtime/live_buffer.py: a concrete buffer, and the theorems on it.
use grackle.Base.{true, ◌≡◌, refl, none, some, List, [], ◌∷◌, arith, map}
use grackle.Base.Int.{pos}
use grackle.Base.Result.{ok, raise, overflow_error, ◌>>=◌}
use grackle.Json.{finite, infinite}
use grackle.LiveBuffer.{Entry, cutoff, trim_ring_buffer}
use grackle.LiveBuffer.Fresh.{fresh, last_of, trim_ring_buffer-last_of}
use grackle.LiveBuffer.Send.{Connection, broadcast}

abbrev buffer : List Entry
buffer = (1, "a") ∷ (4, "b") ∷ (6, "c") ∷ []

trimmed : trim_ring_buffer buffer 9 (finite true (pos 6)) (some 1) ≡ ok ((6, "c") ∷ [])
unfolding trim_ring_buffer
trimmed = refl

-- A window that is not a finite number raises: GRACKLE_TRACE_BUFFER_SECONDS=inf.
no_window : trim_ring_buffer buffer 9 infinite none ≡ raise overflow_error
unfolding trim_ring_buffer
no_window = refl

trim_ring_buffer-last_of_example :
    trim_ring_buffer buffer 9 (finite true (pos 6)) (some 1)
    ≡ (cutoff 9 (finite true (pos 6)) >>= λ c. ok (last_of (some 1) (fresh c buffer)))
trim_ring_buffer-last_of_example =
    trim_ring_buffer-last_of buffer 9 (finite true (pos 6)) (some 1)
      ((omega arith, (omega arith, tt)), ((omega arith, tt), (tt, tt)))

-- A consumer that takes two more messages, and one that is closed.
abbrev consumers : List Connection
consumers =
    record { id = 1; sent = []; room = 2 } ∷ record { id = 2; sent = "x" ∷ []; room = 0 } ∷ []

abbrev late : Connection
late = record { id = 1; sent = []; room = 2 }

-- The consumer that is closed stops nothing, and the sender gets nothing.
sent_on :
    map (λ ws. ws.sent) (broadcast "m" (late ∷ consumers) (some 3))
    ≡ ("m" ∷ []) ∷ ("m" ∷ []) ∷ ("x" ∷ []) ∷ []
unfolding broadcast
sent_on = refl
