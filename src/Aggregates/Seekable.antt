-- ===== src/Aggregates/Seekable.antt =====
-- packages/agent/src/grackle/python_runtime/aggregates.py: `build_seekable`, one scan for the index and
-- the aggregates.
use grackle.Base.{false, ℕ, ◌+◌, List, [], ◌∷◌, ◌++◌, Option, length, ◌≡◌, List-cases, inl, inr}
use mathlib.Core.List.{append_assoc, append-nil}
use grackle.Base.Result.{Result-cases, Result, ok, ◌>>=◌}
use grackle.Json.{Json}
use grackle.Jsonl
use grackle.Jsonl.{JsonlIndex, offsets_from, build_index}
use grackle.Aggregates.Event.{decode_event}
use grackle.Aggregates.Tables.{Tables, start, note}
use grackle.Aggregates.Build.{Aggregates, Source, strip, scan_lines, clamp_k, of_tables, build}

module _ (loads : List ℕ → Result (Option Json)) where
  unfoldable pub seek_lines : ℕ → List (List ℕ) → ℕ → List ℕ → Tables → Result (List ℕ × Tables)
  seek_lines k [] offset offsets t = ok (offsets, t)
  seek_lines k (raw ∷ rest) offset offsets t =
      let next = offset + length raw in
      elim (strip raw) [
        | [] ↦ seek_lines k rest next offsets t
        | c ∷ s ↦ do
          event ← (loads (c ∷ s) >>= decode_event)
          seek_lines k rest next (offsets ++ offset ∷ []) (note k event t)
      ]

  unfoldable pub build_seekable : Source → ℕ → Result (JsonlIndex × Aggregates)
  unfolding seek_lines clamp_k of_tables
  build_seekable source k = do
    (offsets, t) ← seek_lines (clamp_k k) source.lines 0 [] start
    ok (record { offsets = offsets }, of_tables (clamp_k k) t)

  seek_lines-scan :
      (k : ℕ) (lines : List (List ℕ)) (offset : ℕ) (offsets : List ℕ) (t : Tables)
      → seek_lines k lines offset offsets t
        ≡ (scan_lines loads k lines t >>= λ t'. ok (offsets ++ offsets_from offset lines, t'))
  unfolding seek_lines scan_lines offsets_from
  seek_lines-scan k [] offset offsets t = rw append-nil
  seek_lines-scan k (raw ∷ rest) offset offsets t = elim (List-cases (strip raw)) [
    | inl e ↦
        rw (e, seek_lines, scan_lines, offsets_from)
          (seek_lines-scan k rest (offset + length raw) offsets t)
    | inr (c, s, e) ↦
        rw (e, seek_lines, scan_lines, offsets_from)
          (elim (Result-cases (loads (c ∷ s) >>= decode_event)) [
            | inl (event, d) ↦ rw (
              d,
              seek_lines-scan k rest (offset + length raw) (offsets ++ offset ∷ [])
                  (note k event t),
              append_assoc,
            )
            | inr (x, d) ↦ rw d
          ])
  ]

  -- Of a file that can be read to its end, one scan gives the index and the aggregates that the two
  -- scans of JsonlIndex.build and TraceAggregates.build give, and it raises what these raise.
  pub seekable-builds :
      (source : Source) (k : ℕ)
      → source.failed ≡ false
      → build_seekable source k
        ≡ (build_index source >>= λ index. build loads source k >>= λ a. ok (index, a))
  unfolding build_seekable build build_index Jsonl.build
  seekable-builds source k h =
      rw (seek_lines-scan (clamp_k k) source.lines 0 [] start, h)
        (elim (Result-cases (scan_lines loads (clamp_k k) source.lines start)) [
          | inl (t, e) ↦ rw e
          | inr (x, e) ↦ rw e
        ])
