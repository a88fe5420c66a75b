-- ===== src/Base/Sorted.antt =====
-- Python's sorted of the same elements in another order.
use grackle.Base.Tests.{if◌then◌else◌, Bool-cases}
use grackle.Base.Lists.{length}
use grackle.Base.Sort.{IsOrder, insert, sorted, tally}
use grackle.Base.Dict.{Keyed, list_key}
use native.Mathlib.Decide.{ℕ_discrete}
use Prim.Native.Nat.{ℕ, suc}
use mathlib.Core.HLevel.{hedberg}
use mathlib.Core.List.{foldr}
use mathlib.Core.List.Perm
use mathlib.Core.Path.{◌≡◌, refl, ap, ◌∙◌, sym}
use mathlib.Core.Logic.{inl, inr}
use mathlib.Core.Bool.{Bool, true}
use mathlib.Core.List.{List, [], ◌∷◌, Perm}
use native.Mathlib.Omega.{arith}

module _ {ℓ} {A : Type ℓ} (le : A → A → Bool) (o : IsOrder le)
    (antisym : (a b : A) → le a b ≡ true → le b a ≡ true → a ≡ b) where
  both : (a b : A) (xs : List A) → le a b ≡ true → le b a ≡ true → a ∷ b ∷ xs ≡ b ∷ a ∷ xs
  both a b xs p q = let e = antisym a b p q in ap (λ x. x ∷ b ∷ xs) e ∙ ap (λ x. b ∷ x ∷ xs) (sym e)

  insert-insert :
      (a b : A) (xs : List A) → insert le a (insert le b xs) ≡ insert le b (insert le a xs)
  unfolding insert
  insert-insert a b [] = elim (Bool-cases (le a b)) [
    | inl p ↦ elim (Bool-cases (le b a)) [
      | inl q ↦ rw (p, q) (both a b [] p q)
      | inr q ↦ rw (p, q) refl
    ]
    | inr p ↦ rw (p, o.total a b p) refl
  ]
  insert-insert a b (x ∷ xs) = ground (
    arith,
    antisym a b,
    antisym b x,
    antisym a x,
    o.total a b,
    o.total a x,
    o.total b x,
    o.trans a b x,
    o.trans b a x,
    o.trans x a b,
    insert-insert a b xs,
  )

  sorted-foldr : (xs : List A) → sorted le xs ≡ foldr (insert le) [] xs
  unfolding sorted
  sorted-foldr [] = refl
  sorted-foldr (x ∷ xs) = ap (insert le x) (sorted-foldr xs)

  -- Two orders of the same elements are sorted to the same list.
  pub sorted-Perm : ⦃d : Keyed A⦄ {xs ys : List A} → Perm xs ys → sorted le xs ≡ sorted le ys
  sorted-Perm {xs} {ys} p =
      sorted-foldr xs
      ∙ (Perm.foldr-eq (hedberg list_key.same) (insert le) insert-insert p []
          ∙ sym (sorted-foldr ys))

abbrev count_one {ℓ} : {A : Type ℓ} → (A → Bool) → A → ℕ → ℕ
count_one p x n = if p x then suc n else n

tally-foldr {ℓ} : {A : Type ℓ} (p : A → Bool) (xs : List A) → tally p xs ≡ foldr (count_one p) 0 xs
tally-foldr p [] = refl
tally-foldr p (x ∷ xs) = ap (count_one p x) (tally-foldr p xs)

-- The number of the elements that pass a test does not depend on their order.
pub tally-Perm {ℓ} :
    {A : Type ℓ} (p : A → Bool) {xs ys : List A} → Perm xs ys → tally p xs ≡ tally p ys
tally-Perm p {xs} {ys} h =
    tally-foldr p xs
    ∙ (Perm.foldr-eq (hedberg ℕ_discrete) (count_one p) (λ x y n. ground arith) h 0
        ∙ sym (tally-foldr p ys))

tally-length {ℓ} : {A : Type ℓ} (xs : List A) → length xs ≡ tally (λ x. true) xs
tally-length [] = refl
tally-length (x ∷ xs) = ap suc (tally-length xs)

pub length-Perm {ℓ} : {A : Type ℓ} {xs ys : List A} → Perm xs ys → length xs ≡ length ys
length-Perm {xs} {ys} h = tally-length xs ∙ (tally-Perm (λ x. true) h ∙ sym (tally-length ys))
