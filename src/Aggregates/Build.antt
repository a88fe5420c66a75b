-- ===== src/Aggregates/Build.antt =====
-- packages/agent/src/grackle/python_runtime/aggregates.py:
-- `TraceAggregates.build`, and the whole object.
use grackle.Base.{
  ℕ, String, Option, some, List, [], ◌∷◌, map, Bool, ◌&&◌, ◌||◌, ltb, leb, ◌==◌, if◌then◌else◌,
  reverse,
}
use grackle.Base.Sort.{sorted}
use grackle.Base.Result.{◌>>=◌, Result, ok}
use grackle.Json.{Json}
use grackle.Aggregates.Event.{decode_event}
use grackle.Aggregates.Tables.{Tables, start, note}

is_space : ℕ → Bool
is_space c = c == 32 || leb 9 c && leb c 13

lstrip : List ℕ → List ℕ
unfolding is_space
lstrip [] = []
lstrip (c ∷ s) = if is_space c then lstrip s else c ∷ s

-- `raw_line.strip()` of bytes.
unfoldable pub strip : List ℕ → List ℕ
unfolding lstrip
strip s = reverse (lstrip (reverse (lstrip s)))

-- A trace file as its lines, with their terminators, up to its end or to a read that fails. A file
-- that cannot be opened has no lines.
pub record Source : Type 0 where
  pub lines : List (List ℕ)
  pub failed : Bool

-- `build`, over a decoder of one stripped line: json.loads on its UTF-8 text, none where that
-- raises JSONDecodeError or UnicodeDecodeError; what else it raises is not caught.
module _ (loads : List ℕ → Result (Option Json)) where
  unfoldable pub scan_lines : ℕ → List (List ℕ) → Tables → Result Tables
  scan_lines k [] t = ok t
  scan_lines k (raw ∷ rest) t = elim (strip raw) [
    | [] ↦ scan_lines k rest t
    | c ∷ s ↦ do event ← (loads (c ∷ s) >>= decode_event); scan_lines k rest (note k event t)
  ]

pub record Aggregates : Type 0 where
  pub hits : List (String × List ℕ)
  pub first_seen : List (String × ℕ)
  pub total : ℕ
  pub sparse_k : ℕ
  pub weight_prefix : Option (List (String × List ℕ))
  pub sorted_first : List ℕ

-- `__init__`
unfoldable pub init :
    List (String × List ℕ)
    → List (String × ℕ)
    → ℕ
    → ℕ
    → Option (List (String × List ℕ))
    → Aggregates
unfolding sorted
init hits first_seen total k weight_prefix = record {
  hits = hits;
  first_seen = first_seen;
  total = total;
  sparse_k = k;
  weight_prefix = weight_prefix;
  sorted_first = sorted leb (map (λ e. e.1) first_seen);
}

-- `if sparse_k < 1: sparse_k = 1`
unfoldable pub clamp_k : ℕ → ℕ
clamp_k k = if ltb k 1 then 1 else k

unfoldable pub of_tables : ℕ → Tables → Aggregates
unfolding init
of_tables k t = init t.hits t.first_seen t.index k (some t.weight_prefix)

-- An OSError ends the scan, and what was read counts.
unfoldable pub build : (List ℕ → Result (Option Json)) → Source → ℕ → Result Aggregates
unfolding scan_lines clamp_k of_tables
build loads source k = do
  t ← scan_lines loads (clamp_k k) source.lines start
  ok (of_tables (clamp_k k) t)
