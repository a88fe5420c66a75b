-- ===== src/Recording/Part.antt =====
-- packages/agent/src/grackle/python_runtime/writer.py: JsonlPartWriter and write_jsonl. What the
-- operating system does is an argument of each operation.
use grackle.Base.{ℕ, ◌+◌, Option, none, some, List, [], ◌∷◌, ◌++◌, Bool, true, false, take, length}
use mathlib.Core.Option.{map as map_option}
use grackle.Base.Result.{Result, ok, raise, type_error, value_error, os_error, file_exists_error}

-- The writer with the two files it is about; none is a file that is not there. The part file has what is
-- in it and, while it is open, what waits in the buffer of the file object.
pub record Writer : Type 0 where
  pub part : Option (List ℕ)
  pub final : Option (List ℕ)
  pub closed : Bool
  pub count : ℕ
  pub broken : Bool
  pub last_good_offset : ℕ
  pub finalized : Bool

-- A call that returns or raises, with the writer after it.
abbrev pub Done : Type 0
Done = Result (Unit {0}) × Writer

abbrev pub then_step : Done → (Writer → Done) → Done
then_step (ok a, w) f = f w
then_step (raise e, w) f = (raise e, w)

-- `__init__`: exclusive creation of the part file.
unfoldable pub open_part : Option (List ℕ) → Option (List ℕ) → Result Writer
open_part none final = ok record {
  part = some [];
  final = final;
  closed = false;
  count = 0;
  broken = false;
  last_good_offset = 0;
  finalized = false;
}
open_part (some content) final = raise file_exists_error

-- Whether `f.write` takes the bytes, or some of them before it raises.
pub data Wrote : Type 0 where
  whole : Wrote
  torn : ℕ → Wrote

abbrev pub add_bytes : List ℕ → Option (List ℕ) → Option (List ℕ)
add_bytes bytes part = map_option (λ content. content ++ bytes) part

-- `self._f.write(bytes)` and what follows it.
unfoldable pub write_data : List ℕ → Wrote → Writer → Done
write_data bytes whole w = (
  ok tt,
  record w {
    part = add_bytes bytes w.part;
    count = w.count + 1;
    last_good_offset = w.last_good_offset + length bytes;
  },
)
write_data bytes (torn n) w =
    (raise os_error, record w { part = add_bytes (take n bytes) w.part; broken = true })

-- `write`: none is an event that json.dumps or encode refuses.
unfoldable pub write : Option (List ℕ) → Wrote → Writer → Done
unfolding write_data
write text result w = elim w.broken [
  | true ↦ (ok tt, w)
  | false ↦ elim text [
    | none ↦ (raise type_error, record w { broken = true })
    | some t ↦ elim w.closed [
      | true ↦ (raise value_error, record w { broken = true })
      | false ↦ write_data (t ++ 10 ∷ []) result w
    ]
  ]
]

-- Which calls of a finalize or a discard fail. A close that fails, since it flushes the buffer first, leaves
-- the first bytes in the part file, as many as it says, and loses the rest.
pub record Faults : Type 0 where
  pub truncate_fails : Bool
  pub close_fails : Option ℕ
  pub rename_fails : Bool
  pub unlink_fails : Bool

unfoldable pub truncate : Faults → Writer → Done
truncate faults w = elim w.broken [
  | false ↦ (ok tt, w)
  | true ↦ elim w.closed [
    | true ↦ (raise value_error, w)
    | false ↦ elim faults.truncate_fails [
      | true ↦ (raise os_error, w)
      | false ↦ (ok tt, record w { part = map_option (take w.last_good_offset) w.part })
    ]
  ]
]

-- `self._f.close()`: a file that is closed already stays so, and one whose close fails is closed.
unfoldable pub close : Faults → Writer → Done
close faults w = elim w.closed [
  | true ↦ (ok tt, w)
  | false ↦ elim faults.close_fails [
    | some n ↦ (raise os_error, record w { part = map_option (take n) w.part; closed = true })
    | none ↦ (ok tt, record w { closed = true })
  ]
]

-- `self.part_path.replace(self.final_path)`
unfoldable pub rename : Faults → Writer → Done
rename faults w = elim w.part [
  | none ↦ (raise os_error, w)
  | some content ↦ elim faults.rename_fails [
    | true ↦ (raise os_error, w)
    | false ↦ (ok tt, record w { part = none; final = some content; finalized = true })
  ]
]

unfoldable pub finalize : Faults → Writer → Done
unfolding truncate close rename
finalize faults w = elim w.finalized [
  | true ↦ (ok tt, w)
  | false ↦ then_step (truncate faults w) (λ w'. then_step (close faults w') (rename faults))
]

-- `discard`: an OSError of close is suppressed; the result says whether the part file is gone.
unfoldable pub discard : Faults → Writer → Bool × Writer
unfolding close
discard faults w =
    let closed = (close faults w).1 in
    elim faults.unlink_fails [
      | true ↦ (false, closed)
      | false ↦ (true, record closed { part = none })
    ]

-- `"\n".join(lines)`
unfoldable pub join_lines : List (List ℕ) → List ℕ
join_lines [] = []
join_lines (l ∷ []) = l
join_lines (l ∷ m ∷ ls) = l ++ 10 ∷ join_lines (m ∷ ls)

-- `write_jsonl`: the bytes of the file, and the count it returns.
unfoldable pub body_of : List (List ℕ) → List ℕ
unfolding join_lines
body_of [] = []
body_of (l ∷ ls) = join_lines (l ∷ ls) ++ 10 ∷ []

unfoldable pub write_jsonl : List (List ℕ) → List ℕ × ℕ
unfolding body_of
write_jsonl lines = (body_of lines, length lines)
