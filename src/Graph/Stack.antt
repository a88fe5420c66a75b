-- ===== src/Graph/Stack.antt =====
-- The stack of the search of _compute_cycles in packages/agent/src/grackle/graph_analysis.py.
use grackle.Base.{
  ℕ, ◌+◌, ◌≤◌, List, [], ◌∷◌, true, ◌==◌, ◌≡◌, refl, arith, ◌⊎◌, inl, inr, Bool-cases,
}
use grackle.Base.Sort.{tally}
use grackle.Base.Result.{ok}
use grackle.Graph.Cycles.{pop_until}

-- How often a node is in a list.
abbrev pub occurs : ℕ → List ℕ → ℕ
occurs x xs = tally (λ y. y == x) xs

pub occurs-cons : (x w : ℕ) (xs : List ℕ) → occurs x (w ∷ xs) ≡ occurs x (w ∷ []) + occurs x xs
occurs-cons x w xs = ground arith

-- The last element, the first that was pushed.
abbrev pub EndsWith : ℕ → List ℕ → Type 0
EndsWith x [] = ⊥
EndsWith x (y ∷ []) = y ≡ x
EndsWith x (y ∷ z ∷ zs) = EndsWith x (z ∷ zs)

pub EndsWith-occurs : (x : ℕ) (xs : List ℕ) → EndsWith x xs → 1 ≤ occurs x xs
EndsWith-occurs x [] h = absurd h
EndsWith-occurs x (y ∷ []) h = ground arith
EndsWith-occurs x (y ∷ z ∷ zs) h = ground (arith, EndsWith-occurs x (z ∷ zs) h)

EndsWith-tail : (w : ℕ) (xs : List ℕ) (x : ℕ) → EndsWith x (w ∷ xs) → (xs ≡ []) ⊎ EndsWith x xs
EndsWith-tail w [] x h = inl refl
EndsWith-tail w (y ∷ ys) x h = inr h

ends_after :
    (x w : ℕ) (xs rest : List ℕ)
    → (EndsWith x xs → (rest ≡ []) ⊎ EndsWith x rest)
    → EndsWith x (w ∷ xs)
    → ¬ (xs ≡ [])
    → (rest ≡ []) ⊎ EndsWith x rest
ends_after x w [] rest h e d = absurd (d refl)
ends_after x w (y ∷ ys) rest h e d = h e

pub EndsWith-cons : (w x : ℕ) (xs : List ℕ) → EndsWith x xs → EndsWith x (w ∷ xs)
EndsWith-cons w x [] h = absurd h
EndsWith-cons w x (y ∷ ys) h = h

-- The nodes of the call stack are on the stack, in the same order.
abbrev pub IsOn : List (ℕ × ℕ) → List ℕ → Type 0
IsOn [] stack = Unit
IsOn (c ∷ calls) [] = ⊥
IsOn ((v, pos) ∷ calls) (w ∷ stack) = ((v ≡ w) × IsOn calls stack) ⊎ IsOn ((v, pos) ∷ calls) stack

IsOn-skip :
    (w : ℕ) (calls : List (ℕ × ℕ)) (stack : List ℕ) → IsOn calls stack → IsOn calls (w ∷ stack)
IsOn-skip w [] stack h = tt
IsOn-skip w ((v, pos) ∷ calls) stack h = inr h

pub IsOn-tail :
    (v pos : ℕ) (calls : List (ℕ × ℕ)) (stack : List ℕ)
    → IsOn ((v, pos) ∷ calls) stack
    → IsOn calls stack
IsOn-tail v pos calls [] h = absurd h
IsOn-tail v pos calls (w ∷ stack) (inl (p, h)) = IsOn-skip w calls stack h
IsOn-tail v pos calls (w ∷ stack) (inr h) = IsOn-skip w calls stack (IsOn-tail v pos calls stack h)

pub IsOn-pos :
    (v pos pos' : ℕ) (calls : List (ℕ × ℕ)) (stack : List ℕ)
    → IsOn ((v, pos) ∷ calls) stack
    → IsOn ((v, pos') ∷ calls) stack
IsOn-pos v pos pos' calls [] h = absurd h
IsOn-pos v pos pos' calls (w ∷ stack) (inl h) = inl h
IsOn-pos v pos pos' calls (w ∷ stack) (inr h) = inr (IsOn-pos v pos pos' calls stack h)

same_test : (w v : ℕ) → v ≡ w → (w == v) ≡ true
same_test w v p = ground arith

IsOn-full :
    (v pos : ℕ) (calls : List (ℕ × ℕ)) (stack : List ℕ)
    → IsOn ((v, pos) ∷ calls) stack
    → ¬ (stack ≡ [])
IsOn-full v pos calls [] h p = h
IsOn-full v pos calls (w ∷ stack) h p = cc

-- The stack of a node on top of the call stack can be popped down to it.
pub pop_until-IsOn :
    (v pos : ℕ) (calls : List (ℕ × ℕ)) (stack : List ℕ)
    → IsOn ((v, pos) ∷ calls) stack
    → (scc rest : List ℕ) × (pop_until v stack ≡ ok (scc, rest))
      × IsOn calls rest
      × ((x : ℕ) → occurs x stack ≡ occurs x scc + occurs x rest)
      × (1 ≤ occurs v scc)
      × ((x : ℕ) → EndsWith x stack → (rest ≡ []) ⊎ EndsWith x rest)
unfolding pop_until
pop_until-IsOn v pos calls [] h = absurd h
pop_until-IsOn v pos calls (w ∷ stack) (inl (p, h)) = (
  w ∷ [],
  stack,
  rw (same_test w v p) refl,
  h,
  λ x. occurs-cons x w stack,
  ground arith,
  EndsWith-tail w stack,
)
pop_until-IsOn v pos calls (w ∷ stack) (inr h) = elim (Bool-cases (w == v)) [
  | inl e ↦ (
    w ∷ [],
    stack,
    rw e refl,
    IsOn-tail v pos calls stack h,
    λ x. occurs-cons x w stack,
    ground arith,
    EndsWith-tail w stack,
  )
  | inr e ↦
      let (scc, rest, f, k, c, o, q) = pop_until-IsOn v pos calls stack h in
      (
        w ∷ scc,
        rest,
        rw (e, f) refl,
        k,
        λ x. ground (arith, c x),
        ground (arith, o),
        λ x z. ends_after x w stack rest (q x) z (IsOn-full v pos calls stack h),
      )
]
