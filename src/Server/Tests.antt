-- ===== src/Server/Tests.antt =====
-- packages/agent/src/grackle/server.py: concrete requests, and the theorems on them.
use grackle.Base.{
  ℕ, String, List, [], ◌∷◌, Option, none, some, true, false, ◌==◌, ◌≡◌, refl, length, ltb,
  if◌then◌else◌,
}
use grackle.Base.Int.{ℤ, pos, negsuc}
use grackle.Base.Dict.{get, list_same}
use grackle.Base.Text.{string_key, String_discrete}
use grackle.Base.Result.{Result, ok, raise, type_error, recursion_error, ◌>>=◌}
use grackle.Json.{Json, bool, int, str, obj, Fields, end, field, field_get, field_or}
use grackle.Jsonl.{build, split_lines, window_start}
use grackle.Jsonl.Window.{decoded}
use grackle.Aggregates.Build.{strip}
use grackle.Aggregates.Model.{tabulate, heat_between}
use grackle.Aggregates.Tests.{trace_events}
use grackle.Server.{make_trace_query_response, make_trace_seek_error}
use grackle.Server.Seek.{SeekableSession, Sessions, as_index, seek}
use grackle.Server.Query.{query}
use grackle.Server.Source.{Found, read, refused, read_source, IsBelow}
use grackle.Server.Confined.{read_source-IsBelow}
use grackle.Base.Ascii.{codes, contains}
use grackle.Server.Windows.{asked, Answered, seek_reads}
use grackle.Server.Answers.{query_heat}

-- `a`, a blank line, `x` and `e`; `x` does not decode.
abbrev content : List ℕ
content = 97 ∷ 10 ∷ 32 ∷ 10 ∷ 120 ∷ 10 ∷ 101 ∷ []

abbrev loads : List ℕ → Result (Option Json)
loads [] = ok none
loads (c ∷ s) =
    if c == 97
    then ok (some (obj (field "node_id" (str "A") end)))
    else if c == 101
    then ok (some (obj end))
    else ok none

abbrev session : SeekableSession
session = record {
  index = build (split_lines content);
  aggregates = tabulate 1 trace_events;
  content = content;
}

abbrev sessions : Sessions
sessions = ("s", session) ∷ []

-- A start below 0 and a count that is a bool.
abbrev request : Fields
request =
    field "session_id" (str "s")
      (field "start_index" (int (negsuc 4)) (field "count" (bool true) end))

seek_reads_example :
    (reply : Result Json) × (seek loads false "r" request sessions ≡ (reply >>= λ r. ok (r ∷ [])))
    × Answered loads "r" "s" content
        (tabulate 1 trace_events)
        request
        sessions
        (negsuc 4)
        (decoded loads (
          asked loads "r" "s" content
            (tabulate 1 trace_events)
            request
            sessions
            (negsuc 4)
            (pos 1)))
        reply
unfolding String_discrete field_or as_index get split_lines strip
seek_reads_example =
    seek_reads loads "r" "s" content (tabulate 1 trace_events) request sessions (negsuc 4) (pos 1)
      refl refl refl refl (tt, (tt, (tt, tt)))

-- A line that json.loads itself raises on is a read error.
deep_line :
    seek (λ s. raise recursion_error) false "r" request sessions
    ≡ ok (make_trace_seek_error "r" "s" "read error" ∷ [])
unfolding seek String_discrete split_lines strip build
deep_line = refl

-- A line that is no dict raises out of the loop.
number_line : seek (λ s. ok (some (int (pos 7)))) false "r" request sessions ≡ raise type_error
unfolding seek String_discrete split_lines strip build
number_line = refl

abbrev no_repr : Json → String
no_repr v = ""

abbrev no_int : String → Option ℤ
no_int s = none

abbrev heat_request : Fields
heat_request =
    field "session_id" (str "s")
      (field "kind" (str "cumulative_heat") (field "at_index" (int (pos 99)) end))

query_heat_example :
    (heats : Fields) × (query no_repr no_int "r" heat_request sessions
      ≡ make_trace_query_response "r"
          (str "s")
          (str "cumulative_heat")
          (window_start (pos 99) (length trace_events))
          heats
          none)
    × ((node_id : String)
        → field_get node_id heats ≡ (
            if ltb 0
              (heat_between node_id (window_start (pos 99) (length trace_events)) 0 trace_events)
            then some (
                int (
                  pos (
                    heat_between node_id
                      (window_start (pos 99) (length trace_events))
                      0
                      trace_events)))
            else none))
unfolding String_discrete field_or as_index get
query_heat_example =
    query_heat no_repr no_int "r" "s" trace_events (build (split_lines content)) content
      heat_request sessions (pos 99) refl refl refl refl

abbrev found : Found
found = record {
  abs_path = some ("srv" ∷ "app" ∷ "main.py" ∷ []);
  is_comparable = true;
  is_file = some true;
  size = some 7;
  read_text = read "pass  ";
}

read_source-IsBelow_example :
    IsBelow ("srv" ∷ "app" ∷ []) found "pass  " × (contains (codes "main.py") (92 ∷ []) ≡ false)
unfolding read_source String_discrete list_same
read_source-IsBelow_example = read_source-IsBelow ("srv" ∷ "app" ∷ []) "main.py" found "pass  " refl

-- A path out of the root is refused.
escaped :
    read_source ("srv" ∷ "app" ∷ []) "../x" (record found { abs_path = some ("srv" ∷ "x" ∷ []) })
    ≡ ok (refused "forbidden")
unfolding read_source String_discrete list_same
escaped = refl
