-- ===== src/Graph/Ends.antt =====
-- Why the search of _compute_cycles in packages/agent/src/grackle/graph_analysis.py ends.
use grackle.Base.{
  ℕ, zero, suc, ◌+◌, ◌-◌, ◌<◌, List, [], ◌∷◌, ◌++◌, Option, none, some, true, if◌then◌else◌,
  is_some, ltb, get_elem?, length, ◌≡◌, refl, subst, All, arith, inl, inr, Bool-cases,
}
use grackle.Base.Result.{Result, ok}
use grackle.Base.Dict.{some_inj}
use grackle.Graph.Stack.{IsOn, IsOn-pos, IsOn-tail, pop_until-IsOn, occurs}
use grackle.Graph.Cycles.{
  Adjacency, update, Tarjan, visit, back_edge, raise_parent, is_index, close_component, leave,
  finish, advance, next, work,
}

-- How often a node is in the components.
abbrev pub occurs_in : ℕ → List (List ℕ) → ℕ
occurs_in x [] = 0
occurs_in x (c ∷ cs) = occurs x c + occurs_in x cs

occurs_in-append :
    (x : ℕ) (cs : List (List ℕ)) (c : List ℕ)
    → occurs_in x (cs ++ c ∷ []) ≡ occurs_in x cs + occurs x c
occurs_in-append x [] c = omega arith
occurs_in-append x (d ∷ cs) c = omega (arith, occurs_in-append x cs c)

-- A node that has an index is once on the stack or in a component, another one is not.
abbrev pub IsOnce : Tarjan → Type 0
IsOnce t =
    (x : ℕ) → occurs x t.stack + occurs_in x t.sccs ≡ (if is_some (t.indices x) then 1 else 0)

pub once-visit :
    (w i x m : ℕ) (stack : List ℕ) (indices : ℕ → Option ℕ)
    → indices w ≡ none
    → occurs x stack + m ≡ (if is_some (indices x) then 1 else 0)
    → occurs x (w ∷ stack) + m ≡ (if is_some (update w (some i) indices x) then 1 else 0)
unfolding update
once-visit w i x m stack indices e h = grind arith

module _ (adj : Adjacency) where
  unfoldable pub pending : List (ℕ × ℕ) → ℕ
  pending [] = 0
  pending ((v, pos) ∷ calls) = suc (length (adj v) - pos) + pending calls

  unfoldable pub unseen : ℕ → (ℕ → Option ℕ) → ℕ
  unseen zero indices = 0
  unseen (suc v) indices =
      (if is_some (indices v) then 0 else suc (length (adj v))) + unseen v indices

  pub unseen_fresh : (n : ℕ) → unseen n (λ v. none) ≡ work adj n
  unfolding unseen work
  unseen_fresh zero = refl
  unseen_fresh (suc n) = omega (arith, unseen_fresh n)

  pub unseen-update :
      (n w i : ℕ) (indices : ℕ → Option ℕ)
      → indices w ≡ none
      → unseen n (update w (some i) indices) + (if ltb w n then suc (length (adj w)) else 0)
        ≡ unseen n indices
  unfolding unseen update
  unseen-update zero w i indices e = ground arith
  unseen-update (suc n) w i indices e = grind (arith, unseen-update n w i indices e)

  get_elem?-some :
      (xs : List ℕ) (i x n : ℕ)
      → get_elem? xs i ≡ some x
      → All (λ y. y < n) xs
      → (i < length xs) × (x < n)
  get_elem?-some [] i x n e h = cc
  get_elem?-some (y ∷ ys) zero x n e h = (omega arith, subst (λ z. z < n) (some_inj e) h.0)
  get_elem?-some (y ∷ ys) (suc i) x n e h =
      let (a, b) = get_elem?-some ys i x n e h.1 in (omega arith, b)

  -- What a step of the search gives: less is left to do, and what has an index keeps one.
  abbrev pub Seen : Tarjan → Tarjan → Type 0
  Seen t t' = (v : ℕ) → is_some (t.indices v) ≡ true → is_some (t'.indices v) ≡ true

  abbrev pub left_of : ℕ → List (ℕ × ℕ) → Tarjan → ℕ
  left_of n calls t = pending calls + unseen n t.indices

  abbrev pub Stepped : ℕ → List (ℕ × ℕ) → Tarjan → Result Tarjan → Type 0
  Stepped n calls t r =
      (t' : Tarjan) × (r ≡ ok t')
      × (left_of n t'.call_stack t' < left_of n calls t)
      × IsOn t'.call_stack t'.stack
      × Seen t t'
      × (IsOnce t → IsOnce t')

  pub update_seen :
      (w i v : ℕ) (indices : ℕ → Option ℕ)
      → is_some (indices v) ≡ true
      → is_some (update w (some i) indices v) ≡ true
  unfolding update
  update_seen w i v indices h = ground arith

  module _ (n v pos : ℕ) (calls : List (ℕ × ℕ)) (t : Tarjan) where
    advance-Stepped :
        (w : ℕ)
        → pos < length (adj v)
        → w < n
        → IsOn ((v, pos) ∷ calls) t.stack
        → (o : Option ℕ) → t.indices w ≡ o
        → Stepped n ((v, pos) ∷ calls) t (ok (advance v pos calls t w o))
    unfolding advance visit back_edge pending
    advance-Stepped w a b on none e = (
      advance v pos calls t w none,
      refl,
      ground (arith, unseen-update n w t.index_counter t.indices e),
      inl (refl, IsOn-pos v pos (suc pos) calls t.stack on),
      λ x h. update_seen w t.index_counter x t.indices h,
      λ h x. once-visit w t.index_counter x (occurs_in x t.sccs) t.stack t.indices e (h x),
    )
    advance-Stepped w a b on (some i) e = (
      advance v pos calls t w (some i),
      refl,
      omega arith,
      IsOn-pos v pos (suc pos) calls t.stack on,
      λ x h. h,
      λ h. h,
    )

    finish-Stepped :
        IsOn ((v, pos) ∷ calls) t.stack → Stepped n ((v, pos) ∷ calls) t (finish v calls t)
    unfolding finish close_component leave pending
    finish-Stepped on =
        let low = raise_parent calls v t.lowlinks in
        let (scc, rest, e, k, c, d, q) = pop_until-IsOn v pos calls t.stack on in
        elim (Bool-cases (is_index (low v) (t.indices v))) [
          | inl q ↦ (
            close_component calls low t (scc, rest),
            rw (q, e) refl,
            omega arith,
            k,
            λ x h. h,
            λ h x. omega (arith, h x, c x, occurs_in-append x t.sccs scc),
          )
          | inr q ↦ (
            leave calls low t,
            rw q refl,
            omega arith,
            IsOn-tail v pos calls t.stack on,
            λ x h. h,
            λ h. h,
          )
        ]

    pub next-Stepped :
        All (λ w. w < n) (adj v)
        → IsOn ((v, pos) ∷ calls) t.stack
        → (o : Option ℕ) → get_elem? (adj v) pos ≡ o
        → Stepped n ((v, pos) ∷ calls) t (next v pos calls t o)
    unfolding next
    next-Stepped all on none e = finish-Stepped on
    next-Stepped all on (some w) e =
        let (a, b) = get_elem?-some (adj v) pos w n e all in
        advance-Stepped w a b on (t.indices w) refl
