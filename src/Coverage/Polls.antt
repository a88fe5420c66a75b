-- ===== src/Coverage/Polls.antt =====
-- packages/agent/src/grackle/node_runtime/coverage_poll.py: concrete polls, and the theorem on them.
use grackle.Base.Int.{ℤ_discrete, int_key}
use grackle.Base.Text.{string_key}
use grackle.Base.{◌+◌, String, List, [], ◌∷◌, Option, none, some, ◌≡◌, refl, arith}
use grackle.Base.Int.{ℤ, pos, pos_part, neg_part}
use grackle.Base.Text.{String_discrete}
use grackle.Base.Dict.{get, put, pair_key}
use native.Mathlib.Decide.{ℕ_discrete}
use grackle.Base.Result.{ok, raise, overflow_error}
use grackle.Json.{Json, int, float, infinite, str, arr, obj, Items, nil, cons, end, field}
use grackle.Coverage.Deltas.{CoverageKey, CoverageDelta, as_int, count_scripts, poll_all}
use grackle.Coverage.Sums.{sum_at}
use grackle.Coverage.Totals.{Grows, poll_all-gain}

abbrev text : Json → String
text (str s) = s
text v = ""

abbrev number : String → Option ℤ
number s = none

abbrev counted_function : String → ℤ → ℤ → Json
counted_function name start count = obj (
    field "functionName" (str name) (
      field "ranges"
        (arr (
          cons (obj (field "startOffset" (int start) (field "count" (int count) end)))
            (cons (obj end) nil)))
        end))

abbrev one_script : ℤ → ℤ → Items
one_script a b =
    cons
      (obj (
        field "scriptId" (str "7") (
          field "url" (str "file:///app.js") (
            field "functions"
              (arr (
                cons (counted_function "f" (pos 0) a) (cons (counted_function "g" (pos 40) b) nil)))
              end))))
      nil

abbrev f_key : CoverageKey
f_key = ("7", pos 0)

abbrev two_polls : List Items
two_polls = one_script (pos 3) (pos 1) ∷ one_script (pos 5) (pos 1) ∷ []

-- Only what grew is reported.
second_poll :
    poll_all text number two_polls ((f_key, pos 2) ∷ (("7", pos 40), pos 1) ∷ [])
    ≡ ok (
        record {
          script_id = "7";
          url = "file:///app.js";
          function_name = "f";
          start_offset = pos 0;
          delta = pos 1;
        }
        ∷ record {
          script_id = "7";
          url = "file:///app.js";
          function_name = "f";
          start_offset = pos 0;
          delta = pos 2;
        }
        ∷ [])
unfolding poll_all String_discrete ℤ_discrete put get ℕ_discrete
second_poll = refl

-- An infinite count raises.
infinite_count : as_int text number (some (float infinite)) ≡ raise overflow_error
unfolding as_int
infinite_count = refl

two_polls-Grows : Grows text number f_key (pos 2) two_polls (pos 5)
unfolding count_scripts String_discrete ℤ_discrete put get ℕ_discrete
two_polls-Grows =
    (pos 3, _, _, refl, refl, omega arith, (pos 5, _, _, refl, refl, omega arith, refl))

poll_all-gain_example :
    (ds : List CoverageDelta) × (poll_all text number two_polls ((f_key, pos 2) ∷ []) ≡ ok ds)
    × (pos_part (pos 2) + neg_part (pos 5) + sum_at f_key ds ≡ pos_part (pos 5) + neg_part (pos 2))
unfolding String_discrete ℤ_discrete get ℕ_discrete
poll_all-gain_example =
    poll_all-gain text number f_key (pos 2) (pos 5) two_polls ((f_key, pos 2) ∷ []) refl
      two_polls-Grows
