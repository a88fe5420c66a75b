-- ===== src/Coverage/Least.antt =====
-- The start line of a function is the least line of the regions that count.
use grackle.Base.{
  sym, subst, List-cases, Option, none, some, List, [], ◌∷◌, false, arith, ◌≡◌, refl, All, Any,
  Bool-cases, Option-cases, ◌⊎◌, inl, inr,
}
use grackle.Base.Int.{ℤ, ltb_ℤ}
use grackle.Json.{Json, Items, nil, cons}
use grackle.Coverage.{min_region_line, lower, least_line, primary_line, any_line}

-- The lines that a loop over the regions reads.
abbrev pub lines_of : (Json → Option ℤ) → Items → List ℤ
lines_of line_of nil = []
lines_of line_of (cons r rest) = elim (line_of r) [
  | none ↦ lines_of line_of rest
  | some line ↦ line ∷ lines_of line_of rest
]

-- Those of the primary file where there are any, else those of all regions.
abbrev pub counted : Items → List ℤ
counted regions = elim (lines_of primary_line regions) [
  | [] ↦ lines_of any_line regions
  | line ∷ rest ↦ line ∷ rest
]

-- The least of the lines, none where there is none.
abbrev pub LeastOf : List ℤ → Option ℤ → Type 0
LeastOf ls none = ls ≡ []
LeastOf ls (some m) = Any (λ l. l ≡ m) ls × All (λ l. ltb_ℤ l m ≡ false) ls

abbrev lowered : Option ℤ → List ℤ → Option ℤ
lowered least [] = least
lowered least (l ∷ ls) = lowered (lower least l) ls

least_line-lowered :
    (line_of : Json → Option ℤ) (least : Option ℤ) (regions : Items)
    → least_line line_of least regions ≡ lowered least (lines_of line_of regions)
unfolding least_line
least_line-lowered line_of least nil = refl
least_line-lowered line_of least (cons r rest) = elim (Option-cases (line_of r)) [
  | inl e ↦ rw (e, least_line, lines_of) (least_line-lowered line_of least rest)
  | inr (line, e) ↦
      rw (e, least_line, lines_of) (least_line-lowered line_of (lower least line) rest)
]

-- From a line on, the result is that line or one of the list, and none of them is below it.
LeastFrom-lowered :
    (m : ℤ) (ls : List ℤ)
    → (k : ℤ) × (lowered (some m) ls ≡ some k)
      × ((m ≡ k) ⊎ Any (λ l. l ≡ k) ls)
      × (ltb_ℤ m k ≡ false)
      × All (λ l. ltb_ℤ l k ≡ false) ls
unfolding lower
LeastFrom-lowered m [] = (m, refl, inl refl, ground arith, tt)
LeastFrom-lowered m (l ∷ ls) = elim (Bool-cases (ltb_ℤ l m)) [
  | inl e ↦
      let (k, found, which, le, all) = LeastFrom-lowered l ls in
      (k, rw e found, inr which, ground arith, (le, all))
  | inr e ↦
      let (k, found, which, le, all) = LeastFrom-lowered m ls in
      (k, rw e found, elim which [ inl p ↦ inl p | inr q ↦ inr (inr q) ], le, (ground arith, all))
]

lowered-LeastOf : (ls : List ℤ) → LeastOf ls (lowered none ls)
unfolding lower
lowered-LeastOf [] = refl
lowered-LeastOf (l ∷ ls) =
    let (k, found, which, le, all) = LeastFrom-lowered l ls in
    subst (LeastOf (l ∷ ls)) (sym found) (which, (le, all))

least_line-LeastOf :
    (line_of : Json → Option ℤ) (regions : Items)
    → LeastOf (lines_of line_of regions) (least_line line_of none regions)
least_line-LeastOf line_of regions =
    subst (LeastOf (lines_of line_of regions)) (sym (least_line-lowered line_of none regions))
      (lowered-LeastOf (lines_of line_of regions))

counted-none :
    (regions : Items)
    → lines_of primary_line regions ≡ []
    → counted regions ≡ lines_of any_line regions
counted-none regions e = ground arith

counted-some :
    (regions : Items) (m : ℤ)
    → LeastOf (lines_of primary_line regions) (some m)
    → counted regions ≡ lines_of primary_line regions
counted-some regions m (found, all) = elim (List-cases (lines_of primary_line regions)) [
  | inl e ↦ absurd (subst (Any (λ l. l ≡ m)) e found)
  | inr (l, rest, e) ↦ rw (e, counted) refl
]

-- The start line that is reported for a function is the least start line of its regions in the
-- primary file, where there is one that has a whole number as its line; else the least of all its
-- regions; and it is none only where no region has such a line.
min_region_line-LeastOf : (regions : Items) → LeastOf (counted regions) (min_region_line regions)
unfolding min_region_line
min_region_line-LeastOf regions =
    let primary = least_line-LeastOf primary_line regions in
    elim (Option-cases (least_line primary_line none regions)) [
      | inl e ↦
          rw
            (
              e,
              min_region_line,
              counted-none regions (subst (LeastOf (lines_of primary_line regions)) e primary),
            )
            (least_line-LeastOf any_line regions)
      | inr (m, e) ↦
          let least = subst (LeastOf (lines_of primary_line regions)) e primary in
          rw (e, min_region_line, counted-some regions m least) least
    ]
