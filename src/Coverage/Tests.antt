-- ===== src/Coverage/Tests.antt =====
-- packages/agent/src/grackle/rust_runtime/llvm_cov_parse.py: concrete exports, and the theorem on them.
use grackle.Base.{List, ℕ, ◌≡◌, refl, some, [], ◌∷◌}
use grackle.Base.Int.{pos, negsuc}
use grackle.Base.Text.{String_discrete}
use grackle.Json.{Json, int, str, arr, obj, Items, nil, cons, end, field}
use grackle.Coverage.{min_region_line, parse_export}

abbrev region : ℕ → ℕ → Json
region line file_id = arr (
    cons (int (pos line)) (
      cons (int (pos 1)) (
        cons (int (pos 9))
          (cons (int (pos 1)) (cons (int (pos 1)) (cons (int (pos file_id)) nil))))))

abbrev regions : Items
regions = cons (region 8 0) (cons (region 2 1) (cons (region 5 0) nil))

least_is_five : min_region_line regions ≡ some (pos 5)
unfolding min_region_line
least_is_five = refl

-- A negative count is taken.
abbrev entry : Json
entry = obj (
    field "count" (int (negsuc 2))
      (field "filenames" (arr (cons (str "/p/a.rs") nil)) (field "regions" (arr regions) end)))

negative_count :
    parse_export (
      some (
        obj
          (field "data" (arr (cons (obj (field "functions" (arr (cons entry nil)) end)) nil)) end)))
    ≡ record { path = "/p/a.rs"; start_line = pos 5; count = negsuc 2 } ∷ []
unfolding parse_export String_discrete
negative_count = refl

-- Two lines of two characters, and a third line.
abbrev source : List ℕ
source = 97 ∷ 98 ∷ 10 ∷ 99 ∷ 100 ∷ 10 ∷ 101 ∷ []
