-- ===== src/Coverage/Deltas.antt =====
-- packages/agent/src/grackle/node_runtime/coverage_poll.py: iter_coverage_deltas over the decoded answer
-- of takePreciseCoverage. str() of a value and int() of a text are parameters.
use grackle.Base.{
  zero, ◌+◌, String, List, [], ◌∷◌, ◌++◌, Option, none, some, Bool, true, false, not, if◌then◌else◌,
}
use grackle.Base.Int.{ℤ, pos, pos_part, neg_part, ltb_ℤ, sub_ℕ, int_key}
use grackle.Base.Dict.{get, put, get_default, pair_key}
use grackle.Base.Text.{string_key, same_text}
use grackle.Base.Result.{
  Result, ok, raise, type_error, attribute_error, key_error, overflow_error, ◌>>=◌,
}
use grackle.Json.{
  Json, null, bool, int, float, str, arr, obj, finite, infinite, nan, Items, nil, cons, Fields, end,
  field_get,
}

-- (script_id, start_offset)
abbrev pub CoverageKey : Type 0
CoverageKey = String × ℤ

abbrev pub CoverageCounts : Type 0
CoverageCounts = List (CoverageKey × ℤ)

-- url and name of each key.
abbrev pub Meta : Type 0
Meta = List (CoverageKey × (String × String))

pub record CoverageDelta : Type 0 where
  pub script_id : String
  pub url : String
  pub function_name : String
  pub start_offset : ℤ
  pub delta : ℤ

-- `a - b`
unfoldable pub minus : ℤ → ℤ → ℤ
minus a b = sub_ℕ (pos_part a + neg_part b) (pos_part b + neg_part a)

-- The truth of a value.
unfoldable pub is_truthy : Json → Bool
is_truthy null = false
is_truthy (bool b) = b
is_truthy (int (pos zero)) = false
is_truthy (float (finite whole (pos zero))) = not whole
is_truthy (str s) = not (same_text s "")
is_truthy (arr nil) = false
is_truthy (obj end) = false
is_truthy v = true

module _ (str_of : Json → String) (int_of : String → Option ℤ) where
  -- `_as_int(value)`: TypeError and ValueError give 0, OverflowError is not caught.
  unfoldable pub as_int : Option Json → Result ℤ
  as_int none = ok (pos 0)
  as_int (some null) = ok (pos 0)
  as_int (some (bool true)) = ok (pos 1)
  as_int (some (bool false)) = ok (pos 0)
  as_int (some (int n)) = ok n
  as_int (some (float (finite whole n))) = ok n
  as_int (some (float infinite)) = raise overflow_error
  as_int (some (float nan)) = ok (pos 0)
  as_int (some (str s)) = elim (int_of s) [ none ↦ ok (pos 0) | some n ↦ ok n ]
  as_int (some (arr xs)) = ok (pos 0)
  as_int (some (obj fs)) = ok (pos 0)

  -- `str(d.get(key, ""))`
  unfoldable pub text_at : String → Fields → String
  unfolding field_get
  text_at key fs = elim (field_get key fs) [ none ↦ "" | some v ↦ str_of v ]

  -- The body of the inner loop for a first range that is a dict.
  unfoldable pub count_range :
      String → String → Fields → Fields → CoverageCounts × Meta → Result (CoverageCounts × Meta)
  unfolding as_int text_at
  count_range script_id url fn head (counts, meta) = do
    start_offset ← as_int (field_get "startOffset" head)
    count ← as_int (field_get "count" head)
    let key : CoverageKey = (script_id, start_offset)
    let about : String × String = (url, text_at "functionName" fn)
    ok (put key count counts, put key about meta)

  -- `ranges[0]` of ranges that are true, and the test of its class.
  unfoldable pub count_ranges :
      String → String → Fields → Json → CoverageCounts × Meta → Result (CoverageCounts × Meta)
  unfolding count_range
  count_ranges script_id url fn (arr (cons (obj head) rest)) state =
      count_range script_id url fn head state
  count_ranges script_id url fn (arr xs) state = ok state
  count_ranges script_id url fn (str s) state = ok state
  count_ranges script_id url fn (obj fs) state = raise key_error
  count_ranges script_id url fn v state = raise type_error

  -- `fn.get("ranges") or []`
  unfoldable pub count_function :
      String → String → Json → CoverageCounts × Meta → Result (CoverageCounts × Meta)
  unfolding count_ranges is_truthy
  count_function script_id url (obj fn) state = elim (field_get "ranges" fn) [
    | none ↦ ok state
    | some ranges ↦
        if is_truthy ranges then count_ranges script_id url fn ranges state else ok state
  ]
  count_function script_id url v state = raise attribute_error

  unfoldable pub count_functions :
      String → String → Items → CoverageCounts × Meta → Result (CoverageCounts × Meta)
  unfolding count_function
  count_functions script_id url nil state = ok state
  count_functions script_id url (cons fn fns) state = do
    state' ← count_function script_id url fn state
    count_functions script_id url fns state'

  -- Iterating the functions of a script that are true: the keys of a dict and the characters of a text
  -- have no get.
  unfoldable pub count_listed :
      String → String → Json → CoverageCounts × Meta → Result (CoverageCounts × Meta)
  unfolding count_functions
  count_listed script_id url (arr fns) state = count_functions script_id url fns state
  count_listed script_id url (str s) state = raise attribute_error
  count_listed script_id url (obj fs) state = raise attribute_error
  count_listed script_id url v state = raise type_error

  unfoldable pub count_script : Json → CoverageCounts × Meta → Result (CoverageCounts × Meta)
  unfolding count_listed text_at is_truthy
  count_script (obj script) state = elim (field_get "functions" script) [
    | none ↦ ok state
    | some fns ↦
        if is_truthy fns
        then count_listed (text_at "scriptId" script) (text_at "url" script) fns state
        else ok state
  ]
  count_script v state = raise attribute_error

  unfoldable pub count_scripts : Items → CoverageCounts × Meta → Result (CoverageCounts × Meta)
  unfolding count_script
  count_scripts nil state = ok state
  count_scripts (cons script scripts) state = do
    state' ← count_script script state
    count_scripts scripts state'

-- `deltas.append`, with `meta[key]`.
unfoldable pub delta_entry : CoverageKey → ℤ → Meta → Result CoverageDelta
delta_entry (script_id, start_offset) delta meta = elim (get (script_id, start_offset) meta) [
  | none ↦ raise key_error
  | some (url, function_name) ↦ ok (record {
    script_id = script_id;
    url = url;
    function_name = function_name;
    start_offset = start_offset;
    delta = delta;
  })
]

-- The second loop.
unfoldable pub deltas_of : CoverageCounts → CoverageCounts → Meta → Result (List CoverageDelta)
unfolding delta_entry minus
deltas_of [] prev meta = ok []
deltas_of ((key, count) ∷ counts) prev meta =
    let before = get_default key (pos 0) prev in
    let rest = deltas_of counts prev meta in
    if ltb_ℤ before count
    then (do d ← delta_entry key (minus count before) meta; ds ← rest; ok (d ∷ ds))
    else rest

module _ (str_of : Json → String) (int_of : String → Option ℤ) where
  unfoldable pub iter_coverage_deltas :
      Items → CoverageCounts → Result (List CoverageDelta × CoverageCounts)
  unfolding count_scripts deltas_of
  iter_coverage_deltas result prev = do
    (counts, meta) ← count_scripts str_of int_of result ([], [])
    deltas ← deltas_of counts prev meta
    ok (deltas, counts)

  -- The polls of the launcher, each over the counts of the one before: the deltas of all of them.
  unfoldable pub poll_all : List Items → CoverageCounts → Result (List CoverageDelta)
  unfolding iter_coverage_deltas
  poll_all [] prev = ok []
  poll_all (result ∷ results) prev = do
    (deltas, counts) ← iter_coverage_deltas result prev
    later ← poll_all results counts
    ok (deltas ++ later)
