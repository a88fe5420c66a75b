-- ===== src/Coverage/Totals.antt =====
-- The deltas of successive polls add up.
use grackle.Base.{
  ℕ, ◌+◌, ◌≤◌, String, List, [], ◌∷◌, ◌++◌, Option, none, some, Bool, true, false, ◌≡◌, refl, arith,
  inl, inr, ap, ◌∙◌, subst, if◌then◌else◌,
}
use grackle.Base.Int.{ℤ, pos, pos_part, neg_part, int_key}
use grackle.Base.Dict.{get, get_default, pair_key}
use grackle.Base.Text.{string_key}
use grackle.Base.Result.{Result, ok, Result-cases}
use grackle.Json.{Json, Items, nil, cons, Fields, field_get, obj, arr, str}
use grackle.Coverage.Deltas.{
  CoverageKey, CoverageCounts, Meta, CoverageDelta, iter_coverage_deltas, poll_all, count_range,
  count_ranges, count_function, count_functions, count_listed, count_script, count_scripts, as_int,
  text_at,
}
use grackle.Coverage.Deltas.{is_truthy}
use grackle.Coverage.Sums.{
  sum_at, sum_at-append, gain, gain_of, deltas_of_lem, IsGood, put-IsGood, Keeps, >>=-Keeps,
}

either-Keeps :
    (b : Bool) (s : CoverageCounts × Meta) (m : Result (CoverageCounts × Meta))
    → IsGood s
    → Keeps m
    → Keeps (if b then m else ok s)
either-Keeps true s m h k = k
either-Keeps false s m h k = h

sums_up :
    (b c l : ℤ) (n m k : ℕ)
    → k ≡ n + m
    → n ≡ gain c b
    → pos_part b + neg_part c ≤ pos_part c + neg_part b
    → pos_part c + neg_part l + m ≡ pos_part l + neg_part c
    → pos_part b + neg_part l + k ≡ pos_part l + neg_part b
sums_up b c l n m k p q le h = omega arith

module _ (str_of : Json → String) (int_of : String → Option ℤ) where
  module _ (sid url : String) where
    count_range-Keeps :
        (fn head : Fields) (s : CoverageCounts × Meta)
        → IsGood s
        → Keeps (count_range str_of int_of sid url fn head s)
    unfolding count_range
    count_range-Keeps fn head s h =
        elim (Result-cases (as_int str_of int_of (field_get "startOffset" head))) [
          | inl (at, e) ↦ elim (Result-cases (as_int str_of int_of (field_get "count" head))) [
            | inl (count, f) ↦
                rw (e, f)
                  (put-IsGood (sid, at) count (url, text_at str_of int_of "functionName" fn) s h)
            | inr (x, f) ↦ rw (e, f) tt
          ]
          | inr (x, e) ↦ rw e tt
        ]

    count_ranges-Keeps :
        (fn : Fields) (v : Json) (s : CoverageCounts × Meta)
        → IsGood s
        → Keeps (count_ranges str_of int_of sid url fn v s)
    unfolding count_ranges
    count_ranges-Keeps fn (arr (cons (obj head) rest)) s h = count_range-Keeps fn head s h
    count_ranges-Keeps fn (arr nil) s h = h
    count_ranges-Keeps fn (arr (cons _ rest)) s h = h
    count_ranges-Keeps fn (str t) s h = h
    count_ranges-Keeps fn (obj fs) s h = tt
    count_ranges-Keeps fn _ s h = tt

    count_function-Keeps :
        (v : Json) (s : CoverageCounts × Meta)
        → IsGood s
        → Keeps (count_function str_of int_of sid url v s)
    unfolding count_function
    count_function-Keeps (obj fn) s h =
        elim (field_get "ranges" fn)
          as (λ o. Keeps (elim o [
            | none ↦ ok s
            | some v ↦ if is_truthy v then count_ranges str_of int_of sid url fn v s else ok s
          ])) [ none ↦ h | some v ↦ either-Keeps (is_truthy v) s _ h (count_ranges-Keeps fn v s h) ]
    count_function-Keeps _ s h = tt

    count_functions-Keeps :
        (fns : Items) (s : CoverageCounts × Meta)
        → IsGood s
        → Keeps (count_functions str_of int_of sid url fns s)
    unfolding count_functions
    count_functions-Keeps nil s h = h
    count_functions-Keeps (cons fn fns) s h =
        >>=-Keeps (count_function str_of int_of sid url fn s)
          (count_functions str_of int_of sid url fns) (count_function-Keeps fn s h)
          (λ s' h'. count_functions-Keeps fns s' h')

    count_listed-Keeps :
        (v : Json) (s : CoverageCounts × Meta)
        → IsGood s
        → Keeps (count_listed str_of int_of sid url v s)
    unfolding count_listed
    count_listed-Keeps (arr fns) s h = count_functions-Keeps fns s h
    count_listed-Keeps (str t) s h = tt
    count_listed-Keeps (obj fs) s h = tt
    count_listed-Keeps _ s h = tt

  count_script-Keeps :
      (v : Json) (s : CoverageCounts × Meta) → IsGood s → Keeps (count_script str_of int_of v s)
  unfolding count_script
  count_script-Keeps (obj script) s h =
      let sid = text_at str_of int_of "scriptId" script in
      let url = text_at str_of int_of "url" script in
      elim (field_get "functions" script)
        as (λ o. Keeps (elim o [
          | none ↦ ok s
          | some v ↦ if is_truthy v then count_listed str_of int_of sid url v s else ok s
        ])) [
          | none ↦ h
          | some v ↦ either-Keeps (is_truthy v) s _ h (count_listed-Keeps sid url v s h)
        ]
  count_script-Keeps _ s h = tt

  count_scripts-Keeps :
      (vs : Items) (s : CoverageCounts × Meta) → IsGood s → Keeps (count_scripts str_of int_of vs s)
  unfolding count_scripts
  count_scripts-Keeps nil s h = h
  count_scripts-Keeps (cons v vs) s h =
      >>=-Keeps (count_script str_of int_of v s) (count_scripts str_of int_of vs)
        (count_script-Keeps v s h) (λ s' h'. count_scripts-Keeps vs s' h')

  -- A poll that counts gives deltas, which add up to what its counts gain.
  iter_coverage_deltas_lem :
      (result : Items) (prev counts : CoverageCounts) (meta : Meta)
      → count_scripts str_of int_of result ([], []) ≡ ok (counts, meta)
      → (ds : List CoverageDelta) × (iter_coverage_deltas str_of int_of result prev
          ≡ ok (ds, counts))
        × ((key : CoverageKey)
            → sum_at key ds ≡ gain_of (get key counts) (get_default key (pos 0) prev))
  unfolding iter_coverage_deltas get
  iter_coverage_deltas_lem result prev counts meta e =
      let good : IsGood (counts, meta) =
        subst Keeps e (count_scripts-Keeps result ([], []) (tt, λ k h. cc)) in
      let (ds, f, sums) = deltas_of_lem counts prev meta good.0 good.1 in (ds, rw (e, f) refl, sums)

  -- Polls that all count a key, with counts that do not fall, from one count to another.
  abbrev pub Grows : CoverageKey → ℤ → List Items → ℤ → Type 0
  Grows key b [] last = b ≡ last
  Grows key b (result ∷ results) last =
      (count : ℤ) × (counts : CoverageCounts) × (meta : Meta) × (count_scripts str_of int_of result
          ([], [])
        ≡ ok (counts, meta))
      × (get key counts ≡ some count)
      × (pos_part b + neg_part count ≤ pos_part count + neg_part b)
      × Grows key count results last

  get_default-some :
      (key : CoverageKey) (count : ℤ) (counts : CoverageCounts)
      → get key counts ≡ some count
      → get_default key (pos 0) counts ≡ count
  get_default-some key count counts f = ap (λ o. elim o as (λ _. ℤ) [ none ↦ pos 0 | some v ↦ v ]) f

  -- Over polls each of which is counted without an error and counts a function, with counts of it that do not
  -- fall, the deltas of the function add up to the last count less what the baseline had.
  pub poll_all-gain :
      (key : CoverageKey) (b last : ℤ) (results : List Items) (prev : CoverageCounts)
      → get_default key (pos 0) prev ≡ b
      → Grows key b results last
      → (ds : List CoverageDelta) × (poll_all str_of int_of results prev ≡ ok ds)
        × (pos_part b + neg_part last + sum_at key ds ≡ pos_part last + neg_part b)
  unfolding poll_all sum_at
  poll_all-gain key b last [] prev h grows = ([], refl, rw grows (omega arith))
  poll_all-gain key b last (result ∷ results) prev h (count, counts, meta, e, f, le, grows) =
      let (ds, r, sums) = iter_coverage_deltas_lem result prev counts meta e in
      let (later, q, rest) =
        poll_all-gain key count last results counts (get_default-some key count counts f) grows in
      (
        ds ++ later,
        rw (r, q) refl,
        sums_up b count last _ _ _ (sum_at-append key ds later)
            (sums key ∙ (ap (λ o. gain_of o (get_default key (pos 0) prev)) f ∙ ap (gain count) h))
            le rest,
      )
