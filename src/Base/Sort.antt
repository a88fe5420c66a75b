-- ===== src/Base/Sort.antt =====
-- Python's sorted: stable, by a test of order.
use grackle.Base.Tests.{Bool_pick, if◌then◌else◌, Bool-cases}
use grackle.Base.Lists.{Any, All, All-mono}
use Prim.Native.Nat.{ℕ, suc}
use mathlib.Core.Path.{◌≡◌, refl}
use mathlib.Core.Logic.{◌⊎◌, inl, inr}
use mathlib.Core.Bool.{Bool, true, false}
use mathlib.Core.List.{List, [], ◌∷◌, Perm}
use mathlib.Core.List.Perm
use native.Mathlib.Omega.{arith}

-- A test of order that is total and transitive; two values may stand at the same place.
pub record IsOrder {ℓ} {A : Type ℓ} (le : A → A → Bool) : Type ℓ where
  pub total : (a b : A) → le a b ≡ false → le b a ≡ true
  pub trans : (a b c : A) → le a b ≡ true → le b c ≡ true → le a c ≡ true

module _ {ℓ} {A : Type ℓ} (le : A → A → Bool) where
  -- An element goes before those that do not stand before it.
  unfoldable pub insert : A → List A → List A
  insert a [] = a ∷ []
  insert a (x ∷ xs) = if le a x then a ∷ x ∷ xs else x ∷ insert a xs

  unfoldable pub sorted : List A → List A
  unfolding insert
  sorted [] = []
  sorted (x ∷ xs) = insert x (sorted xs)

  -- Each element stands at or before all that follow.
  abbrev pub Ordered : List A → Type 0
  Ordered [] = Unit
  Ordered (x ∷ xs) = All (λ y. le x y ≡ true) xs × Ordered xs

  insert-perm : (a : A) (xs : List A) → Perm (insert a xs) (a ∷ xs)
  unfolding insert
  insert-perm a [] = Perm.refl (a ∷ [])
  insert-perm a (x ∷ xs) = elim (Bool-cases (le a x)) [
    | inl e ↦ rw e (Perm.refl (a ∷ x ∷ xs))
    | inr e ↦ rw e (Perm.trans (Perm.cons x (insert-perm a xs)) (Perm.swap a x xs))
  ]

  pub sorted-perm : (xs : List A) → Perm (sorted xs) xs
  unfolding sorted
  sorted-perm [] = Perm.refl []
  sorted-perm (x ∷ xs) = Perm.trans (insert-perm x (sorted xs)) (Perm.cons x (sorted-perm xs))

  insert-All {κ} : (P : A → Type κ) (a : A) (xs : List A) → P a → All P xs → All P (insert a xs)
  unfolding insert
  insert-All P a [] h k = (h, tt)
  insert-All P a (x ∷ xs) h k = elim (Bool-cases (le a x)) [
    | inl e ↦ rw e (h, k)
    | inr e ↦ rw e (k.0, insert-All P a xs h k.1)
  ]

  pub sorted-All {κ} : (P : A → Type κ) (xs : List A) → All P xs → All P (sorted xs)
  unfolding sorted
  sorted-All P [] h = tt
  sorted-All P (x ∷ xs) h = insert-All P x (sorted xs) h.0 (sorted-All P xs h.1)

  -- What holds of the sorted list held before.
  insert-All_iff {κ} : (P : A → Type κ) (a : A) (xs : List A) → All P (insert a xs) → P a × All P xs
  unfolding insert
  insert-All_iff P a [] h = (h.0, tt)
  insert-All_iff P a (x ∷ xs) h =
      Bool_pick (λ ys. All P ys → P a × (P x × All P xs)) (le a x) (a ∷ x ∷ xs) (x ∷ insert a xs)
        (λ h. (h.0, (h.1.0, h.1.1)))
        (λ h. let (here, rest) = insert-All_iff P a xs h.1 in (here, (h.0, rest))) h

  pub All-sorted {κ} : (P : A → Type κ) (xs : List A) → All P (sorted xs) → All P xs
  unfolding sorted
  All-sorted P [] h = tt
  All-sorted P (x ∷ xs) h =
      let (here, rest) = insert-All_iff P x (sorted xs) h in (here, All-sorted P xs rest)

  insert-Any : (P : A → Type 0) (a : A) (xs : List A) → Any P (insert a xs) → P a ⊎ Any P xs
  unfolding insert
  insert-Any P a [] h = h
  insert-Any P a (x ∷ xs) h =
      Bool_pick (λ ys. Any P ys → P a ⊎ (P x ⊎ Any P xs)) (le a x) (a ∷ x ∷ xs) (x ∷ insert a xs)
        (λ h. h)
        (λ h. elim h [
          | inl p ↦ inr (inl p)
          | inr q ↦ elim (insert-Any P a xs q) [ inl p ↦ inl p | inr r ↦ inr (inr r) ]
        ])
        h

  pub Any-sorted : (P : A → Type 0) (xs : List A) → Any P (sorted xs) → Any P xs
  unfolding sorted
  Any-sorted P [] h = h
  Any-sorted P (x ∷ xs) h = elim (insert-Any P x (sorted xs) h) [
    | inl p ↦ inl p
    | inr q ↦ inr (Any-sorted P xs q)
  ]

  module _ (o : IsOrder le) where
    insert-Ordered : (a : A) (xs : List A) → Ordered xs → Ordered (insert a xs)
    unfolding insert
    insert-Ordered a [] h = (tt, tt)
    insert-Ordered a (x ∷ xs) h = elim (Bool-cases (le a x)) [
      | inl e ↦ rw e (
        (e, All-mono (λ y. le x y ≡ true) (λ y. le a y ≡ true) (λ y p. o.trans a x y e p) xs h.0),
        h,
      )
      | inr e ↦
          rw e (insert-All (λ y. le x y ≡ true) a xs (o.total a x e) h.0, insert-Ordered a xs h.1)
    ]

    pub sorted-Ordered : (xs : List A) → Ordered (sorted xs)
    unfolding sorted
    sorted-Ordered [] = tt
    sorted-Ordered (x ∷ xs) = insert-Ordered x (sorted xs) (sorted-Ordered xs)

-- Each element is in a relation to all that follow.
module _ {ℓ κ} {A : Type ℓ} (R : A → A → Type κ) where
  abbrev pub Pairwise : List A → Type κ
  Pairwise [] = Unit
  Pairwise (x ∷ xs) = All (R x) xs × Pairwise xs

  pub Ordered-Pairwise :
      (le : A → A → Bool)
      → ((x y : A) → le x y ≡ true → R x y)
      → (xs : List A) → Ordered le xs
      → Pairwise xs
  Ordered-Pairwise le f [] h = tt
  Ordered-Pairwise le f (x ∷ xs) h =
      (All-mono (λ y. le x y ≡ true) (R x) (f x) xs h.0, Ordered-Pairwise le f xs h.1)

-- How many elements pass a test.
module _ {ℓ} {A : Type ℓ} (p : A → Bool) where
  abbrev pub tally : List A → ℕ
  tally [] = 0
  tally (x ∷ xs) = if p x then suc (tally xs) else tally xs

  tally-insert : (le : A → A → Bool) (a : A) (xs : List A) → tally (insert le a xs) ≡ tally (a ∷ xs)
  unfolding insert
  tally-insert le a [] = refl
  tally-insert le a (x ∷ xs) = ground (arith, tally-insert le a xs)

  pub tally-sorted : (le : A → A → Bool) (xs : List A) → tally (sorted le xs) ≡ tally xs
  unfolding sorted
  tally-sorted le [] = refl
  tally-sorted le (x ∷ xs) = ground (arith, tally-insert le x (sorted le xs), tally-sorted le xs)
