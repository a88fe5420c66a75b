-- ===== src/Diff/Tests.antt =====
-- packages/agent/src/grackle/diff.py: concrete traces, and the theorems on them.
use grackle.Base.{
  ◌<◌, ◌≡◌, ◌↔◌, refl, String, none, some, [], ◌∷◌, true, false, All, ite, ◌||◌, if◌then◌else◌,
}
use grackle.Base.Text.{String_discrete}
use grackle.Base.Sort.{Pairwise, tally}
use grackle.Aggregates.Build.{Aggregates, of_tables}
use grackle.Aggregates.Query.{cumulative_heat, len, node_ids}
use grackle.Aggregates.Tables.{note}
use grackle.Aggregates.Model.{tabulate}
use grackle.Aggregates.Tests.{trace_events}
use grackle.Diff.{diff_trace_vs_trace, has_regression, index_or_end, member}
use grackle.Diff.Order.{IsEntry, Before, diff_entries}
use grackle.Diff.Regression.{regression_iff}

abbrev base : Aggregates
base = tabulate 1 ((some "B", 1) ∷ (some "C", 1) ∷ [])

abbrev now : Aggregates
now = tabulate 1 trace_events

regression_found : has_regression (diff_trace_vs_trace base now none none none) ≡ true
unfolding has_regression diff_trace_vs_trace of_tables note cumulative_heat len
regression_found = refl

regression_iff_example :
    (has_regression (diff_trace_vs_trace base now none none (some 4)) ≡ true) ↔ (
      (k : String) × (0 < cumulative_heat base k (index_or_end none base))
      × (cumulative_heat base k (index_or_end none base)
          < cumulative_heat now k (index_or_end (some 4) now)))
regression_iff_example = regression_iff base now none none (some 4)

diff_entries_example :
    let d = diff_trace_vs_trace base now (some ("A" ∷ [])) none none in
    All (IsEntry base now (index_or_end none base) (index_or_end none now)) d
    × Pairwise Before d
    × ((k : String)
        → tally (λ e. ite (String_discrete e.node_id k) true false) d ≡ (
            if member k ("A" ∷ []) || member k (node_ids base) || member k (node_ids now)
            then 1
            else 0))
diff_entries_example = diff_entries base now (some ("A" ∷ [])) none none
