-- ===== src/Jsonl.antt =====
-- packages/agent/src/grackle/python_runtime/jsonl_index.py: byte offsets of the lines of a trace
-- file, and reads of a window of its events.
pub mod Window
mod Tests
use grackle.Base.{
  true, false, ℕ, zero, suc, ◌+◌, ◌-◌, List, [], ◌∷◌, Option, none, some, leb, ◌==◌, if◌then◌else◌,
  drop, get_or, length, min,
}
use grackle.Base.Int.{ℤ, pos, negsuc}
use grackle.Json.{Json}
use grackle.Aggregates.Build.{strip, Source}
use grackle.Base.Result.{Result, ok, raise, os_error, ◌>>=◌}

-- `for raw_line in f` of a file opened in binary: a line ends behind its newline.
abbrev cons_head : ℕ → List (List ℕ) → List (List ℕ)
cons_head c [] = (c ∷ []) ∷ []
cons_head c (l ∷ ls) = (c ∷ l) ∷ ls

unfoldable pub split_lines : List ℕ → List (List ℕ)
split_lines [] = []
split_lines (c ∷ s) = if c == 10 then (c ∷ []) ∷ split_lines s else cons_head c (split_lines s)

-- `f.readline()`
unfoldable pub readline : List ℕ → List ℕ
readline [] = []
readline (c ∷ s) = if c == 10 then c ∷ [] else c ∷ readline s

-- The loop of `build`: the offset of each line that strips to something.
unfoldable pub offsets_from : ℕ → List (List ℕ) → List ℕ
offsets_from offset [] = []
offsets_from offset (raw ∷ rest) =
    let later = offsets_from (offset + length raw) rest in
    elim (strip raw) [ [] ↦ later | _ ↦ offset ∷ later ]

pub record JsonlIndex : Type 0 where
  pub offsets : List ℕ

-- The index of the lines of a file.
unfoldable pub build : List (List ℕ) → JsonlIndex
unfolding offsets_from
build lines = record { offsets = offsets_from 0 lines }

-- `build` of a file: a read that fails raises OSError.
unfoldable pub build_index : Source → Result JsonlIndex
unfolding build
build_index source = elim source.failed [ true ↦ raise os_error | false ↦ ok (build source.lines) ]

-- `__len__`
unfoldable pub len : JsonlIndex → ℕ
len index = length index.offsets

-- `max(0, min(start, total))`
abbrev pub window_start : ℤ → ℕ → ℕ
window_start (pos n) total = min n total
window_start (negsuc n) total = 0

-- `min(start + count, total)`; below 0 it is below any start.
abbrev pub window_end : ℕ → ℤ → ℕ → ℕ
window_end start (pos n) total = min (start + n) total
window_end start (negsuc n) total = min (start - suc n) total

-- `events.append(event)`, where there is one.
abbrev pub kept : Option Json → List Json → List Json
kept none rest = rest
kept (some event) rest = event ∷ rest

module _ (loads : List ℕ → Result (Option Json)) where
  -- `for i in range(start, end)`: seek, read a line, and keep it if it decodes. What json.loads raises other than
  -- JSONDecodeError and UnicodeDecodeError is not caught.
  unfoldable pub read_range : List ℕ → List ℕ → ℕ → ℕ → Result (List Json)
  unfolding readline
  read_range content offsets i zero = ok []
  read_range content offsets i (suc n) = do
    event ← loads (readline (drop (get_or offsets i 0) content))
    rest ← read_range content offsets (suc i) n
    ok (kept event rest)

  unfoldable pub read_window : JsonlIndex → List ℕ → ℤ → ℤ → Result (List Json)
  unfolding read_range
  read_window index content start count =
      let total = length index.offsets in
      let from = window_start start total in
      let to = window_end from count total in
      if leb to from then ok [] else read_range content index.offsets from (to - from)
