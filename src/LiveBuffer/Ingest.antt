-- ===== src/LiveBuffer/Ingest.antt =====
-- The ring buffer message by message: what is kept after each ingest.
use grackle.Base.{ℕ, ◌≤◌, Option, none, some, List, length, All}
use grackle.LiveBuffer.{Entry}
use grackle.LiveBuffer.Fresh.{InOrder}

-- The cap holds.
abbrev pub Within : Option ℕ → List Entry → Type 0
Within none es = Unit
Within (some n) es = length es ≤ n

-- A buffer that a live session keeps: in order, within the cap, and not from after `now_ns`.
abbrev pub Kept : ℕ → Option ℕ → List Entry → Type 0
Kept now_ns cap es = InOrder es × Within cap es × All (λ e. e.0 ≤ now_ns) es

-- The cap, which the environment gives, is at least 1.
abbrev pub Positive : Option ℕ → Type 0
Positive none = Unit
Positive (some n) = 1 ≤ n
