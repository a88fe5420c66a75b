-- ===== src/Aggregates/Scan.antt =====
-- One pass over the lines tabulates the events of the file, and the tables answer by their sums.
use native.Mathlib.Nat.{div-mul-le_self}
use grackle.Base.{
  suc, arith, ◌≤◌, ℕ, String, Option, List, [], ◌∷◌, ◌++◌, ◌≡◌, refl, sym, List-cases, inl, inr,
}
use mathlib.Core.List.{append_assoc, append-nil}
use grackle.Base.Result.{ok, ◌>>=◌, Result-cases, >>=-assoc, Result}
use grackle.Json.{Json}
use grackle.Aggregates.Event.{Event, decode_event}
use grackle.Aggregates.Tables.{Tables, start, note}
use grackle.Aggregates.Build.{of_tables, clamp_k, Aggregates, build, Source, strip, scan_lines}
use grackle.Aggregates.Query.{rounded, cumulative_heat}
use grackle.Aggregates.Model.{heat_between, OffGrid, sparse_between, events, notes, tabulate}
use grackle.Aggregates.Kept.{Tracks, Tracks-start, Tracks-note}
use grackle.Aggregates.Heat.{heat-Tracks}

module _ (loads : List ℕ → Result (Option Json)) where
  scan_lines-events :
      (k : ℕ) (lines : List (List ℕ)) (t : Tables)
      → scan_lines loads k lines t ≡ (events loads lines >>= λ es. ok (notes k es t))
  unfolding scan_lines
  scan_lines-events k [] t = refl
  scan_lines-events k (raw ∷ rest) t = elim (List-cases (strip raw)) [
    | inl e ↦ rw (e, scan_lines, events) (scan_lines-events k rest t)
    | inr (c, s, e) ↦
        rw (e, scan_lines, events)
          (elim (Result-cases (loads (c ∷ s) >>= decode_event)) [
            | inl (event, d) ↦
                rw (d, scan_lines-events k rest (note k event t))
                  (sym (
                    >>=-assoc (events loads rest) (λ others. ok (event ∷ others))
                      (λ es. ok (notes k es t))))
            | inr (x, d) ↦ rw d
          ])
  ]

notes-Tracks :
    (k : ℕ) (done es : List Event) (t : Tables)
    → Tracks k done t
    → Tracks k (done ++ es) (notes k es t)
notes-Tracks k done [] t h = rw append-nil h
notes-Tracks k done (e ∷ es) t h =
    rw (← append_assoc done (e ∷ []) es)
      (notes-Tracks k (done ++ e ∷ []) es (note k e t) (Tracks-note k done e t h))

pub tabulate-heat :
    (k : ℕ) (es : List Event) (node_id : String) (at_index : ℕ)
    → cumulative_heat (tabulate k es) node_id at_index
      ≡ sparse_between k node_id (rounded k at_index) 0 es
tabulate-heat k es node_id at_index =
    heat-Tracks k es (notes k es start) node_id at_index
      (notes-Tracks k [] es start (Tracks-start k))

module _ (loads : List ℕ → Result (Option Json)) (source : Source) (k : ℕ) where
  -- The scan tabulates the events of the file, and raises what the first bad line raises.
  pub build-events :
      build loads source k ≡ (events loads source.lines >>= λ es. ok (tabulate (clamp_k k) es))
  unfolding build
  build-events = rw (scan_lines-events loads (clamp_k k) source.lines start) (
      >>=-assoc (events loads source.lines) (λ es. ok (notes (clamp_k k) es start))
        (λ t. ok (of_tables (clamp_k k) t)))

  -- Whenever every line that decodes is an object whose id is a string or falsy, the build
  -- succeeds, and the heat of a node at an index is the sum of the weights of its events at the
  -- recorded positions below the index, rounded down where the index is sparse.
  pub heat-build :
      (es : List Event)
      → events loads source.lines ≡ ok es
      → (a : Aggregates) × (build loads source k ≡ ok a)
        × ((node_id : String) (at_index : ℕ)
            → cumulative_heat a node_id at_index
              ≡ sparse_between (clamp_k k) node_id (rounded (clamp_k k) at_index) 0 es)
  heat-build es h = (tabulate (clamp_k k) es, rw (build-events, h), tabulate-heat (clamp_k k) es)

dense_between :
    (node_id : String) (at_index i : ℕ) (es : List Event)
    → sparse_between 1 node_id at_index i es ≡ heat_between node_id at_index i es
dense_between node_id at_index i [] = refl
dense_between node_id at_index i (e ∷ es) =
    ground (arith, dense_between node_id at_index (suc i) es)

sparse-le-dense :
    (k : ℕ) (node_id : String) (m n i : ℕ) (es : List Event)
    → m ≤ n
    → sparse_between k node_id m i es ≤ heat_between node_id n i es
sparse-le-dense k node_id m n i [] h = omega arith
sparse-le-dense k node_id m n i (e ∷ es) h =
    ground (arith, sparse-le-dense k node_id m n (suc i) es h)

rounded-le : (k n : ℕ) → rounded k n ≤ n
rounded-le k n = ground (arith, div-mul-le_self n k)

-- With the default sparse_k of 1 the heat is exact: the sum of the weights of all the node's
-- events before the index.
pub heat_exact :
    (es : List Event) (node_id : String) (at_index : ℕ)
    → cumulative_heat (tabulate 1 es) node_id at_index ≡ heat_between node_id at_index 0 es
heat_exact es node_id at_index = rw tabulate-heat (dense_between node_id at_index 0 es)

-- At any sparse_k the heat is at most the exact one.
heat_sparse_le :
    (k : ℕ) (es : List Event) (node_id : String) (at_index : ℕ)
    → cumulative_heat (tabulate k es) node_id at_index ≤ heat_between node_id at_index 0 es
heat_sparse_le k es node_id at_index =
    rw tabulate-heat (sparse-le-dense k node_id _ at_index 0 es (rounded-le k at_index))

OffGrid-zero :
    (k : ℕ) (node_id : String) (n i : ℕ) (es : List Event)
    → OffGrid k node_id i es
    → sparse_between k node_id n i es ≡ 0
OffGrid-zero k node_id n i [] h = refl
OffGrid-zero k node_id n i (e ∷ es) h = ground (arith, OffGrid-zero k node_id n (suc i) es h.1)

-- A node whose events all stand between the recorded positions has heat 0 at every index, however
-- many events it has: the error has no bound in sparse_k.
heat-OffGrid :
    (k : ℕ) (es : List Event) (node_id : String) (at_index : ℕ)
    → OffGrid k node_id 0 es
    → cumulative_heat (tabulate k es) node_id at_index ≡ 0
heat-OffGrid k es node_id at_index h = rw tabulate-heat (OffGrid-zero k node_id _ 0 es h)
