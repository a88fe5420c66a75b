-- ===== src/Profile/Climb.antt =====
-- The walk up the call tree ends within its fuel, and takes in the node it starts at.
use grackle.Base.{
  ℕ, zero, suc, ◌≤◌, ◌<◌, Option, none, some, List, [], ◌∷◌, true, false, not, is_some, arith, ◌≡◌,
  refl, length, Option-cases, inl, inr,
}
use grackle.Base.Dict.{number_key, get}
use grackle.Base.Sort.{tally}
use grackle.Profile.Tree.{Stack, among, climb, parent}

-- The entries of a dict whose keys are not pending.
abbrev unseen : List ℕ → List (ℕ × Option ℕ) → ℕ
unseen pending m = tally (λ e. not (among e.0 pending)) m

unseen-length : (pending : List ℕ) (m : List (ℕ × Option ℕ)) → unseen pending m ≤ length m
unseen-length pending [] = omega arith
unseen-length pending (e ∷ m) = ground (arith, unseen-length pending m)

unseen-le :
    (c : ℕ) (pending : List ℕ) (m : List (ℕ × Option ℕ)) → unseen (c ∷ pending) m ≤ unseen pending m
unseen-le c pending [] = omega arith
unseen-le c pending (e ∷ m) = ground (arith, unseen-le c pending m)

unseen-lt :
    (c : ℕ) (pending : List ℕ) (m : List (ℕ × Option ℕ))
    → is_some (get c m) ≡ true
    → among c pending ≡ false
    → unseen (c ∷ pending) m < unseen pending m
unfolding get
unseen-lt c pending [] h k = cc
unseen-lt c pending ((j, v) ∷ m) h k = ground (arith, unseen-le c pending m, unseen-lt c pending m)

parent-none : (m : List (ℕ × Option ℕ)) (c : ℕ) → get c m ≡ none → parent m c ≡ none
unfolding parent
parent-none m c e = ground arith

module _ (parent_of : List (ℕ × Option ℕ)) (cache : List (ℕ × Stack)) where
  -- The walk ends with a result.
  abbrev Ends : ℕ → Option ℕ → List ℕ → Type 0
  Ends fuel cur pending = is_some (climb parent_of cache fuel cur pending) ≡ true

  Ends-none : (fuel : ℕ) (pending : List ℕ) → Ends fuel none pending
  unfolding climb
  Ends-none zero pending = refl
  Ends-none (suc fuel) pending = refl

  Ends-suc :
      (fuel c : ℕ) (pending : List ℕ)
      → (among c pending ≡ false → Ends fuel (parent parent_of c) (c ∷ pending))
      → Ends (suc fuel) (some c) pending
  unfolding climb
  Ends-suc fuel c pending h = ground arith

  climb-Ends :
      (fuel : ℕ) (cur : Option ℕ) (pending : List ℕ)
      → unseen pending parent_of < fuel
      → Ends fuel cur pending
  climb-Ends fuel none pending h = Ends-none fuel pending
  climb-Ends zero (some c) pending h = absurd (omega arith)
  climb-Ends (suc fuel) (some c) pending h = Ends-suc fuel c pending (λ k.
      elim (Option-cases (get c parent_of)) [
        | inl e ↦ rw (parent-none parent_of c e) (Ends-none fuel (c ∷ pending))
        | inr (v, e) ↦
            climb-Ends fuel (parent parent_of c) (c ∷ pending)
              (omega (arith, unseen-lt c pending parent_of (rw e refl) k))
      ])

  -- What is pending stays pending.
  climb-among :
      (fuel c : ℕ) (cur : Option ℕ) (pending r : List ℕ) (base : Stack)
      → among c pending ≡ true
      → climb parent_of cache fuel cur pending ≡ some (r, base)
      → among c r ≡ true
  unfolding climb
  climb-among zero c none pending r base h e = ground arith
  climb-among (suc fuel) c none pending r base h e = ground arith
  climb-among zero c (some cur) pending r base h e = cc
  climb-among (suc fuel) c (some cur) pending r base h e =
      ground (arith, climb-among fuel c (parent parent_of cur) (cur ∷ pending) r base)

  -- From the empty stack of pending nodes, with fuel for every node and two more.
  pub climb-total :
      (c : ℕ) (b : ℕ)
      → length parent_of < b
      → (r : List ℕ) × (base : Stack) × (climb parent_of cache b (some c) [] ≡ some (r, base))
  climb-total c b h = elim (Option-cases (climb parent_of cache b (some c) [])) [
    | inl e ↦ cc (climb-Ends b (some c) [] (omega (arith, unseen-length [] parent_of)), e)
    | inr ((r, base), e) ↦ (r, base, e)
  ]

  -- The walk takes in its start, where that has no path yet.
  pub climb-start :
      (fuel c : ℕ) (r : List ℕ) (base : Stack)
      → get c cache ≡ none
      → climb parent_of cache fuel (some c) [] ≡ some (r, base)
      → among c r ≡ true
  unfolding climb
  climb-start zero c r base h e = cc
  climb-start (suc fuel) c r base h e =
      climb-among fuel c (parent parent_of c) (c ∷ []) r base (ground arith) (ground arith)
