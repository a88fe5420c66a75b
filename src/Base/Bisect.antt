-- ===== src/Base/Bisect.antt =====
-- The standard library's bisect_right, by its loop.
use grackle.Base.Tests.{leb, ltb, if◌then◌else◌, Bool-cases}
use grackle.Base.Lists.{length, get_elem?, All}
use grackle.Base.Sort.{tally}
use mathlib.Core.Bool.{not}
use mathlib.Core.Logic.{inl, inr}
use mathlib.Core.Path.{sym, ap}
use Prim.Native.Nat.{ℕ, zero, suc, ◌+◌, ◌-◌, ◌/◌, ◌≤◌, ◌<◌}
use mathlib.Core.Path.{◌≡◌, refl}
use mathlib.Core.Logic.{inl, inr}
use mathlib.Core.Bool.{Bool, true}
use mathlib.Core.List.{List, [], ◌∷◌}
use mathlib.Core.Option.{none, some}
use native.Mathlib.Omega.{arith}

module _ {ℓ} {A : Type ℓ} (above : A → Bool) where
  -- `x < key(a[mid])`; the loop reads no position past the end.
  unfoldable pub test_at : List A → ℕ → Bool
  test_at xs mid = elim (get_elem? xs mid) [ none ↦ true | some a ↦ above a ]

  -- `while lo < hi`, with fuel.
  unfoldable pub bisect_loop : List A → ℕ → ℕ → ℕ → ℕ
  bisect_loop xs zero lo hi = lo
  bisect_loop xs (suc fuel) lo hi =
      let mid = (lo + hi) / 2 in
      let left = bisect_loop xs fuel lo mid in
      let right = bisect_loop xs fuel (mid + 1) hi in
      if ltb lo hi then (if test_at xs mid then left else right) else lo

  unfoldable pub bisect_right : List A → ℕ
  unfolding bisect_loop test_at
  bisect_right xs = bisect_loop xs (suc (length xs)) 0 (length xs)

  -- How many elements stand before the first that is above.
  abbrev pub rank : List A → ℕ
  rank [] = 0
  rank (x ∷ xs) = if above x then 0 else suc (rank xs)

  -- What follows an element that is above is above.
  abbrev pub Upward : List A → Type 0
  Upward [] = Unit
  Upward (x ∷ xs) = (above x ≡ true → All (λ y. above y ≡ true) xs) × Upward xs

  pub rank-le : (xs : List A) → rank xs ≤ length xs
  rank-le [] = omega arith
  rank-le (x ∷ xs) = ground (arith, rank-le xs)

  test_at-All : (xs : List A) (i : ℕ) → All (λ y. above y ≡ true) xs → test_at xs i ≡ true
  unfolding test_at
  test_at-All [] i h = refl
  test_at-All (x ∷ xs) zero h = h.0
  test_at-All (x ∷ xs) (suc i) h = test_at-All xs i h.1

  -- On such a list the test at a position says whether the rank is reached.
  test_at-rank : (xs : List A) (i : ℕ) → Upward xs → test_at xs i ≡ leb (rank xs) i
  unfolding test_at
  test_at-rank [] i h = ground arith
  test_at-rank (x ∷ xs) zero h = ground arith
  test_at-rank (x ∷ xs) (suc i) h = elim (Bool-cases (above x)) [
    | inl e ↦ rw e (rw (test_at-All xs i (h.0 e)) (ground arith))
    | inr e ↦ rw e (rw (test_at-rank xs i h.1) (ground arith))
  ]

  bisect_loop-rank :
      (xs : List A) (fuel lo hi : ℕ)
      → Upward xs
      → hi - lo < fuel
      → lo ≤ rank xs
      → rank xs ≤ hi
      → bisect_loop xs fuel lo hi ≡ rank xs
  unfolding bisect_loop
  bisect_loop-rank xs zero lo hi u f l h = elim f [ ]
  bisect_loop-rank xs (suc fuel) lo hi u f l h = ground (
    arith,
    test_at-rank xs ((lo + hi) / 2) u,
    bisect_loop-rank xs fuel lo ((lo + hi) / 2) u,
    bisect_loop-rank xs fuel ((lo + hi) / 2 + 1) hi u,
  )

  pub bisect_right-rank : (xs : List A) → Upward xs → bisect_right xs ≡ rank xs
  unfolding bisect_right
  bisect_right-rank xs u =
      bisect_loop-rank xs (suc (length xs)) 0 (length xs) u (omega arith) (omega arith) (rank-le xs)

  tally-All : (xs : List A) → All (λ y. above y ≡ true) xs → tally (λ y. not (above y)) xs ≡ 0
  tally-All [] h = refl
  tally-All (x ∷ xs) h = rw (h.0, tally-All xs h.1)

  -- On such a list the rank counts the elements that are not above.
  pub rank-tally : (xs : List A) → Upward xs → rank xs ≡ tally (λ x. not (above x)) xs
  rank-tally [] u = refl
  rank-tally (x ∷ xs) u = elim (Bool-cases (above x)) [
    | inl e ↦ rw e (sym (tally-All xs (u.0 e)))
    | inr e ↦ rw e (ap suc (rank-tally xs u.1))
  ]
