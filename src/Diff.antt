-- ===== src/Diff.antt =====
-- packages/agent/src/grackle/diff.py: a trace against the static graph, and a trace against another.
pub mod Classes
pub mod Order
pub mod Regression
mod Tests
use grackle.Base.{
  ℕ, String, Option, none, some, List, [], ◌∷◌, Bool, true, false, ltb, ◌==◌, ◌&&◌, ◌||◌,
  if◌then◌else◌, ite,
}
use grackle.Base.Int.{ℤ, pos, sub_ℕ, ltb_ℤ}
use grackle.Base.Text.{String_discrete, rank_then_text}
use grackle.Base.Sort.{sorted}
use grackle.Aggregates.Build.{Aggregates}
use grackle.Aggregates.Query.{len, cumulative_heat, node_ids}

pub data DiffStatus : Type 0 where
  touched cold new gone hotter colder same : DiffStatus

-- `_STATUS_ORDER`
abbrev pub status_order : DiffStatus → ℕ
status_order hotter = 0
status_order new = 1
status_order gone = 2
status_order colder = 3
status_order same = 4
status_order cold = 5
status_order touched = 6

pub record DiffEntry : Type 0 where
  pub node_id : String
  pub status : DiffStatus
  pub count_a : ℕ
  pub count_b : ℕ
  pub delta : ℤ

-- The sort key (status order, node id).
unfoldable pub shown_first : DiffEntry → DiffEntry → Bool
shown_first x y = rank_then_text (status_order x.status) (status_order y.status) x.node_id y.node_id

-- `at_index if at_index is not None else len(aggregates)`
abbrev pub index_or_end : Option ℕ → Aggregates → ℕ
index_or_end none a = len a
index_or_end (some i) a = i

unfoldable pub static_entry : Aggregates → ℕ → String → DiffEntry
static_entry a idx nid =
    let count = cumulative_heat a nid idx in
    record {
      node_id = nid;
      status = if ltb 0 count then touched else cold;
      count_a = count;
      count_b = 0;
      delta = pos 0;
    }

unfoldable pub static_entries : Aggregates → ℕ → List String → List DiffEntry
unfolding static_entry
static_entries a idx [] = []
static_entries a idx (nid ∷ rest) = static_entry a idx nid ∷ static_entries a idx rest

unfoldable pub diff_trace_vs_static : List String → Aggregates → Option ℕ → List DiffEntry
unfolding static_entries shown_first sorted
diff_trace_vs_static node_ids a at_index =
    sorted shown_first (static_entries a (index_or_end at_index a) node_ids)

-- The chain of tests on the two counts.
unfoldable pub status_of : ℕ → ℕ → DiffStatus
status_of ca cb =
    let delta = sub_ℕ cb ca in
    if ca == 0 && ltb 0 cb
    then new
    else if ltb 0 ca && cb == 0
    then gone
    else if ltb_ℤ (pos 0) delta
    then hotter
    else if ltb_ℤ delta (pos 0)
    then colder
    else same

unfoldable pub trace_entry : Aggregates → Aggregates → ℕ → ℕ → String → DiffEntry
unfolding status_of
trace_entry a b idx_a idx_b nid =
    let ca = cumulative_heat a nid idx_a in
    let cb = cumulative_heat b nid idx_b in
    record {
      node_id = nid;
      status = status_of ca cb;
      count_a = ca;
      count_b = cb;
      delta = sub_ℕ cb ca;
    }

unfoldable pub trace_entries : Aggregates → Aggregates → ℕ → ℕ → List String → List DiffEntry
unfolding trace_entry
trace_entries a b idx_a idx_b [] = []
trace_entries a b idx_a idx_b (nid ∷ rest) =
    trace_entry a b idx_a idx_b nid ∷ trace_entries a b idx_a idx_b rest

-- A set as the list of its elements, each once.
abbrev pub member : String → List String → Bool
member k [] = false
member k (j ∷ js) = ite (String_discrete j k) true (member k js)

unfoldable pub union : List String → List String → List String
union [] s = s
union (k ∷ ks) s = let rest = union ks s in if member k rest then rest else k ∷ rest

-- `set(node_ids)` where the caller gives ids.
abbrev pub given : Option (List String) → List String
given none = []
given (some ids) = ids

-- `aggregates_a.node_ids | aggregates_b.node_ids`, with the ids of the caller.
unfoldable pub universe : Aggregates → Aggregates → Option (List String) → List String
unfolding union node_ids
universe a b ids = union (given ids) (union (node_ids a) (union (node_ids b) []))

unfoldable pub diff_trace_vs_trace :
    Aggregates → Aggregates → Option (List String) → Option ℕ → Option ℕ → List DiffEntry
unfolding trace_entries universe shown_first sorted
diff_trace_vs_trace a b node_ids at_a at_b =
    sorted shown_first
      (trace_entries a b (index_or_end at_a a) (index_or_end at_b b) (universe a b node_ids))

is_hotter : DiffStatus → Bool
is_hotter hotter = true
is_hotter _ = false

unfoldable pub has_regression : List DiffEntry → Bool
unfolding is_hotter
has_regression [] = false
has_regression (e ∷ rest) = is_hotter e.status || has_regression rest
