-- ===== src/Coverage.antt =====
-- packages/agent/src/grackle/rust_runtime/llvm_cov_parse.py: function records from an export of
-- llvm-cov.
pub mod Least
pub mod LineMap
pub mod Deltas
mod Polls
pub mod Sums
pub mod Totals
mod Tests
use grackle.Base.{
  ℕ, zero, suc, String, Option, none, some, List, [], ◌∷◌, ◌++◌, Bool, true, false, if◌then◌else◌,
}
use grackle.Base.Int.{ℤ, pos, ltb_ℤ}
use grackle.Json.{
  Json, finite, bool, int, float, str, arr, obj, Items, nil, cons, Fields, field_get,
}

-- `r[n]` of a list that is long enough, none past its end.
unfoldable pub item_at : ℕ → Items → Option Json
item_at n nil = none
item_at zero (cons x xs) = some x
item_at (suc n) (cons x xs) = item_at n xs

-- `x != 0`, where False and the float 0.0 equal 0.
unfoldable pub differs_from_zero : Json → Bool
differs_from_zero (int (pos zero)) = false
differs_from_zero (bool false) = false
differs_from_zero (float (finite true (pos zero))) = false
differs_from_zero _ = true

-- `isinstance(line, int) and not isinstance(line, bool)`
unfoldable pub int_of : Option Json → Option ℤ
int_of (some (int n)) = some n
int_of _ = none

-- The line of a region of the primary file: a list of six or more with a file id of 0.
unfoldable pub primary_line : Json → Option ℤ
unfolding item_at differs_from_zero int_of
primary_line (arr r) = elim (item_at 5 r) [
  | none ↦ none
  | some file_id ↦ if differs_from_zero file_id then none else int_of (item_at 0 r)
]
primary_line _ = none

unfoldable pub any_line : Json → Option ℤ
unfolding item_at int_of
any_line (arr r) = int_of (item_at 0 r)
any_line _ = none

-- `if min_line is None or line < min_line: min_line = line`
unfoldable pub lower : Option ℤ → ℤ → Option ℤ
lower none line = some line
lower (some least) line = if ltb_ℤ line least then some line else some least

-- One of the two loops over the regions, by the line it reads of a region.
unfoldable pub least_line : (Json → Option ℤ) → Option ℤ → Items → Option ℤ
unfolding lower
least_line line_of least nil = least
least_line line_of least (cons r rest) = elim (line_of r) [
  | none ↦ least_line line_of least rest
  | some line ↦ least_line line_of (lower least line) rest
]

unfoldable pub min_region_line : Items → Option ℤ
unfolding least_line primary_line any_line
min_region_line regions = elim (least_line primary_line none regions) [
  | some line ↦ some line
  | none ↦ least_line any_line none regions
]

pub record RustCoverFunction : Type 0 where
  pub path : String
  pub start_line : ℤ
  pub count : ℤ

-- `filenames[0]` of a list that is not empty, where it is a text that is not empty.
unfoldable pub primary_path : Option Json → Option String
primary_path (some (arr (cons (str String.[]) rest))) = none
primary_path (some (arr (cons (str path) rest))) = some path
primary_path _ = none

unfoldable pub regions_of : Option Json → Option Items
regions_of (some (arr nil)) = none
regions_of (some (arr (cons r rest))) = some (cons r rest)
regions_of _ = none

-- `_parse_function` on the fields of an entry.
unfoldable pub parse_fields : Fields → Option RustCoverFunction
unfolding int_of primary_path regions_of min_region_line field_get
parse_fields fn = elim (int_of (field_get "count" fn)) [
  | none ↦ none
  | some count ↦ elim (primary_path (field_get "filenames" fn)) [
    | none ↦ none
    | some path ↦ elim (regions_of (field_get "regions" fn)) [
      | none ↦ none
      | some regions ↦ elim (min_region_line regions) [
        | none ↦ none
        | some line ↦ some record { path = path; start_line = line; count = count }
      ]
    ]
  ]
]

unfoldable pub parse_function : Json → Option RustCoverFunction
unfolding parse_fields
parse_function (obj fn) = parse_fields fn
parse_function _ = none

unfoldable pub parse_functions : Items → List RustCoverFunction
unfolding parse_function
parse_functions nil = []
parse_functions (cons fn rest) =
    let others = parse_functions rest in
    elim (parse_function fn) [ none ↦ others | some entry ↦ entry ∷ others ]

-- The functions of one section.
unfoldable pub parse_section : Json → List RustCoverFunction
unfolding parse_functions field_get
parse_section (obj section) = elim (field_get "functions" section) [
  | some (arr functions) ↦ parse_functions functions
  | _ ↦ []
]
parse_section _ = []

unfoldable pub parse_sections : Items → List RustCoverFunction
unfolding parse_section
parse_sections nil = []
parse_sections (cons section rest) = parse_section section ++ parse_sections rest

-- `parse_export` on what json.loads returns, none where it raises.
unfoldable pub parse_export : Option Json → List RustCoverFunction
unfolding parse_sections field_get
parse_export (some (obj doc)) = elim (field_get "data" doc) [
  | some (arr data_items) ↦ parse_sections data_items
  | _ ↦ []
]
parse_export _ = []
