-- ===== src/Aggregates/Coverage.antt =====
-- coverage_count answers by the distinct ids among the first events.
use native.Mathlib.Nat.{zero-add}
use grackle.Base.Text.{string_key}
use native.Mathlib.Numerals.{add-one}
use grackle.Base.Dict.{get-put, put, get}
use grackle.Base.{
  zero, ◌∙◌, if◌then◌else◌, ◌-◌, take, is_some, ◌+◌, ℕ, suc, String, none, some, List, [], ◌∷◌,
  true, not, map, leb, arith, ◌≡◌, refl, All-mono,
}
use grackle.Base.Bisect.{Upward, bisect_right-rank, rank-tally}
use grackle.Base.Sort.{sorted, tally, tally-sorted, Ordered, IsOrder, sorted-Ordered}
use grackle.Aggregates.Event.{Event}
use grackle.Aggregates.Tables.{start, touch, note, Tables, first_at}
use grackle.Aggregates.Build.{of_tables}
use grackle.Aggregates.Query.{past, coverage_count}
use grackle.Aggregates.Model.{distinct, contains, tabulate, notes}

leb-IsOrder : IsOrder leb
leb-IsOrder = record { total = λ a b h. ground arith; trans = λ a b c h k. ground arith }

Ordered-Upward : (n : ℕ) (xs : List ℕ) → Ordered leb xs → Upward (past n) xs
Ordered-Upward n [] h = tt
Ordered-Upward n (x ∷ xs) h = (
  λ e. All-mono (λ y. leb x y ≡ true) (λ y. past n y ≡ true) (λ y p. ground arith) xs h.0,
  Ordered-Upward n xs h.1,
)

-- The entries of the first-seen index that lie before `n`.
abbrev seen_before : ℕ → List (String × ℕ) → ℕ
seen_before n m = tally (λ i. not (past n i)) (map (λ e. e.1) m)

coverage-seen :
    (k : ℕ) (t : Tables) (n : ℕ) → coverage_count (of_tables k t) n ≡ seen_before n t.first_seen
unfolding coverage_count of_tables
coverage-seen k t n =
    let firsts = map (λ e. e.1) t.first_seen in
    let u = Ordered-Upward n (sorted leb firsts) (sorted-Ordered leb leb-IsOrder firsts) in
    ground (
      arith,
      bisect_right-rank (past n) (sorted leb firsts) u,
      rank-tally (past n) (sorted leb firsts) u,
      tally-sorted (λ i. not (past n i)) leb firsts,
    )

-- The first-seen index after more events.
abbrev firsts : List (String × ℕ) → ℕ → List Event → List (String × ℕ)
firsts m i [] = m
firsts m i ((none, count) ∷ es) = firsts m (suc i) es
firsts m i ((some nid, count) ∷ es) = firsts (first_at nid i m) (suc i) es

note-first_seen :
    (k : ℕ) (nid : String) (count : ℕ) (t : Tables)
    → ((note k (some nid, count) t).first_seen ≡ first_at nid t.index t.first_seen)
      × ((note k (some nid, count) t).index ≡ suc t.index)
unfolding note touch
note-first_seen k nid count t = ground arith

notes-firsts :
    (k : ℕ) (es : List Event) (t : Tables)
    → (notes k es t).first_seen ≡ firsts t.first_seen t.index es
unfolding note
notes-firsts k [] t = refl
notes-firsts k ((none, count) ∷ es) t = rw (notes-firsts k es (note k (none, count) t), add-one)
notes-firsts k ((some nid, count) ∷ es) t =
    let (seen, index) = note-first_seen k nid count t in
    rw (notes-firsts k es (note k (some nid, count) t), seen, index)

-- An id is among those seen just where the index has it.
abbrev Agree : List String → List (String × ℕ) → Type 0
Agree seen m = (j : String) → contains j seen ≡ is_some (get j m)

tally-put :
    (nid : String) (i n : ℕ) (m : List (String × ℕ))
    → get nid m ≡ none
    → seen_before n (put nid i m) ≡ seen_before n m + (if past n i then 0 else 1)
unfolding get put
tally-put nid i n [] h = ground arith
tally-put nid i n ((j, v) ∷ m) h = ground (arith, tally-put nid i n m)

Agree-put :
    (nid : String) (i : ℕ) (seen : List String) (m : List (String × ℕ))
    → Agree seen m
    → Agree (nid ∷ seen) (put nid i m)
Agree-put nid i seen m h j = ground (arith, get-put nid j i m, h j)

take-nil {ℓ} : {A : Type ℓ} (n : ℕ) → take {A = A} n [] ≡ []
take-nil zero = refl
take-nil (suc n) = refl

-- `r` more events lie before `n`.
firsts-distinct :
    (n i r : ℕ) (es : List Event) (m : List (String × ℕ)) (seen : List String)
    → r ≡ n - i
    → Agree seen m
    → seen_before n (firsts m i es) ≡ seen_before n m + distinct seen (take r es)
unfolding first_at
firsts-distinct n i r [] m seen p h = rw take-nil (omega arith)
firsts-distinct n i zero ((none, count) ∷ es) m seen p h =
    firsts-distinct n (suc i) zero es m seen (omega arith) h
firsts-distinct n i (suc r) ((none, count) ∷ es) m seen p h =
    firsts-distinct n (suc i) r es m seen (omega arith) h
firsts-distinct n i zero ((some nid, count) ∷ es) m seen p h = ground (
  arith,
  firsts-distinct n (suc i) zero es (put nid i m) (nid ∷ seen) (omega arith)
      (Agree-put nid i seen m h),
  firsts-distinct n (suc i) zero es m seen (omega arith) h,
  tally-put nid i n m,
)
firsts-distinct n i (suc r) ((some nid, count) ∷ es) m seen p h = ground (
  arith,
  h nid,
  firsts-distinct n (suc i) r es (put nid i m) (nid ∷ seen) (omega arith)
      (Agree-put nid i seen m h),
  firsts-distinct n (suc i) r es m seen (omega arith) h,
  tally-put nid i n m,
)

-- The coverage at an index is the number of distinct ids among the events before it, at every
-- sparse_k.
pub coverage_distinct :
    (k : ℕ) (es : List Event) (n : ℕ) → coverage_count (tabulate k es) n ≡ distinct [] (take n es)
unfolding get
coverage_distinct k es n =
    rw (coverage-seen k (notes k es start) n, notes-firsts k es start)
      (firsts-distinct n 0 n es [] [] (omega arith) (λ j. refl) ∙ zero-add _)
