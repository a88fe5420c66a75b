-- ===== src/Base/Top.antt =====
-- The first elements of a ranking.
use Prim.Native.Nat.{ℕ, zero, suc, ◌≤◌}
use mathlib.Core.Path.{◌≡◌}
use mathlib.Core.Bool.{Bool, true}
use mathlib.Core.List.{List, [], ◌∷◌, ◌++◌, Perm}
use grackle.Base.Lists.{
  All, All-take, All-drop, length, take, drop, length-take-le, take-append-drop,
}
use grackle.Base.Sort.{IsOrder, Ordered, sorted, sorted-Ordered, sorted-perm}

module _ {ℓ} {A : Type ℓ} (le : A → A → Bool) where
  -- A split of an ordered list: what comes later stands after all that comes earlier.
  split-Ordered :
      (n : ℕ) (xs : List A)
      → Ordered le xs
      → Ordered le (take n xs) × All (λ x. All (λ y. le x y ≡ true) (drop n xs)) (take n xs)
  split-Ordered zero xs h = (tt, tt)
  split-Ordered (suc n) [] h = (tt, tt)
  split-Ordered (suc n) (x ∷ xs) h =
      let (top, rest) = split-Ordered n xs h.1 in
      (
        (All-take (λ y. le x y ≡ true) n xs h.0, top),
        (All-drop (λ y. le x y ≡ true) n xs h.0, rest),
      )

  -- `top` is the start of a ranking of `all`: at most `k` elements in order, and the rest of `all`,
  -- in some order, stands after each of them.
  abbrev pub Top : ℕ → List A → List A → Type ℓ
  Top k all top =
      (length top ≤ k)
      × Ordered le top
      × ((rest : List A) × Perm (top ++ rest) all × All (λ x. All (λ y. le x y ≡ true) rest) top)

  pub take-Top : IsOrder le → (k : ℕ) (all : List A) → Top k all (take k (sorted le all))
  take-Top o k all =
      let ranked = sorted le all in
      let (top, rest) = split-Ordered k ranked (sorted-Ordered le o all) in
      (
        length-take-le k ranked,
        top,
        (drop k ranked, rw take-append-drop (sorted-perm le all), rest),
      )
