-- ===== src/Graph/Emptied.antt =====
-- How the search of _compute_cycles in packages/agent/src/grackle/graph_analysis.py leaves an empty stack.
use grackle.Base.{
  ℕ, ◌+◌, ◌≤◌, min, List, [], ◌∷◌, Option, none, some, Bool, true, false, is_some, if◌then◌else◌,
  ◌≡◌, refl, sym, ap, ◌∙◌, subst, All, arith, ◌⊎◌, inl, inr, Bool-cases,
}
use grackle.Base.Dict.{some_inj}
use grackle.Base.Result.{ok}
use grackle.Graph.Cycles.{
  Tarjan, visit, back_edge, pop_until, raise_parent, is_index, close_component, leave, finish,
  advance, next,
}
use grackle.Graph.Ends.{IsOnce}
use grackle.Graph.Stack.{IsOn, occurs, pop_until-IsOn, EndsWith, EndsWith-occurs}
use grackle.Graph.Based.{
  update-min, low-update, update-same, visit-Indexed, visit-Based, back-Based, leave_stack_lem,
  Outcome, IfOk, Based,
}

-- The lowlinks once the parent has taken that of the node.
raise_parent_lem :
    (start b v : ℕ) (calls : List (ℕ × ℕ)) (low : ℕ → ℕ)
    → low start ≤ b
    → b ≤ low v
    → All (λ c. b ≤ low c.0) calls
    → (raise_parent calls v low start ≤ b) × All (λ c. b ≤ raise_parent calls v low c.0) calls
unfolding raise_parent
raise_parent_lem start b v [] low h k a = (h, tt)
raise_parent_lem start b v ((p, q) ∷ calls) low h k a = (
  update-min p (low v) start b low h,
  low-update b p (min (low p) (low v)) low ((p, q) ∷ calls) (omega (arith, a.0)) a,
)

closed :
    (v : ℕ) (calls : List (ℕ × ℕ)) (t : Tarjan) (scc rest : List ℕ)
    → is_index (raise_parent calls v t.lowlinks v) (t.indices v) ≡ true
    → pop_until v t.stack ≡ ok (scc, rest)
    → finish v calls t ≡ ok (close_component calls (raise_parent calls v t.lowlinks) t (scc, rest))
unfolding finish
closed v calls t scc rest h e = rw (h, e) refl

left_open :
    (v : ℕ) (calls : List (ℕ × ℕ)) (t : Tarjan)
    → is_index (raise_parent calls v t.lowlinks v) (t.indices v) ≡ false
    → finish v calls t ≡ ok (leave calls (raise_parent calls v t.lowlinks) t)
unfolding finish
left_open v calls t h = rw h refl

root_is_index : (low b : ℕ) (o : Option ℕ) → o ≡ some b → low ≤ b → b ≤ low → is_index low o ≡ true
unfolding is_index
root_is_index low b none e h k = cc
root_is_index low b (some i) e h k = let p : i ≡ b = some_inj e in ground arith

ends_empty : (x : ℕ) (xs : List ℕ) → (xs ≡ []) ⊎ EndsWith x xs → occurs x xs ≡ 0 → xs ≡ []
ends_empty x xs (inl p) h = p
ends_empty x xs (inr e) h = let k = EndsWith-occurs x xs e in absurd (omega arith)

once_left :
    (seen : Bool) (s m n r : ℕ) → s + m ≡ (if seen then 1 else 0) → s ≡ n + r → 1 ≤ n → r ≡ 0
once_left seen s m n r h k p = ground arith

ends_left :
    (x : ℕ) (d : ℕ × ℕ) (calls : List (ℕ × ℕ)) (rest : List ℕ)
    → IsOn (d ∷ calls) rest
    → (rest ≡ []) ⊎ EndsWith x rest
    → EndsWith x rest
ends_left x d calls [] k h = absurd k
ends_left x d calls (y ∷ ys) k (inl p) = cc
ends_left x d calls (y ∷ ys) k (inr e) = e

finish-Based :
    (start b v pos : ℕ) (calls : List (ℕ × ℕ)) (t : Tarjan)
    → Based start b ((v, pos) ∷ calls) t
    → IsOn ((v, pos) ∷ calls) t.stack
    → IsOnce t
    → IfOk (Outcome start b) (finish v calls t)
unfolding close_component leave raise_parent
finish-Based start b v pos [] t (last, ends, ix, count, low, lows, on) ison once =
    let (scc, rest, e, k, c, o, q) = pop_until-IsOn v pos [] t.stack ison in
    let root : is_index (raise_parent [] v t.lowlinks v) (t.indices v) ≡ true =
      root_is_index (t.lowlinks v) b (t.indices v) (ap t.indices last ∙ ix)
        (subst (λ x. t.lowlinks x ≤ b) (sym last) low) lows.0 in
    let none_left : occurs v rest ≡ 0 =
      once_left (is_some (t.indices v)) _ _ _ _ (once v) (c v) o in
    let empty : rest ≡ [] =
      ends_empty v rest (q v (subst (λ x. EndsWith x t.stack) (sym last) ends)) none_left in
    subst (IfOk (Outcome start b)) (sym (closed v [] t scc rest root e)) (
      inr (
        refl,
        empty,
        λ w r.
            let (a, z) = leave_stack_lem scc t.on_stack w r in
            let (p, i) = on w a in omega (arith, p, c w, z, ap (occurs w) empty),
      ))
finish-Based start b v pos (d ∷ calls) t (last, ends, ix, count, low, lows, on) ison once =
    let (scc, rest, e, k, c, o, q) = pop_until-IsOn v pos (d ∷ calls) t.stack ison in
    let (low', lows') = raise_parent_lem start b v (d ∷ calls) t.lowlinks low lows.0 lows.1 in
    elim (Bool-cases (is_index (raise_parent (d ∷ calls) v t.lowlinks v) (t.indices v))) [
      | inl root ↦ subst (IfOk (Outcome start b)) (sym (closed v (d ∷ calls) t scc rest root e)) (
          inl (
            last,
            ends_left start d calls rest k (q start ends),
            ix,
            count,
            low',
            lows',
            λ w r.
                let (a, z) = leave_stack_lem scc t.on_stack w r in
                let (p, i) = on w a in (omega (arith, p, c w, z), i),
          ))
      | inr inner ↦
          subst (IfOk (Outcome start b)) (sym (left_open v (d ∷ calls) t inner))
            (inl (last, ends, ix, count, low', lows', on))
    ]

advance-Based :
    (start b v pos : ℕ) (calls : List (ℕ × ℕ)) (t : Tarjan) (w : ℕ) (o : Option ℕ)
    → Based start b ((v, pos) ∷ calls) t
    → t.indices w ≡ o
    → Outcome start b (advance v pos calls t w o)
unfolding advance visit back_edge
advance-Based start b v pos calls t w none h e = inl (visit-Based start b v pos calls t h w e)
advance-Based start b v pos calls t w (some i) h e = inl (back-Based start b v pos calls t h w i e)

pub next-Based :
    (start b v pos : ℕ) (calls : List (ℕ × ℕ)) (t : Tarjan)
    → Based start b ((v, pos) ∷ calls) t
    → IsOn ((v, pos) ∷ calls) t.stack
    → IsOnce t
    → (o : Option ℕ) → IfOk (Outcome start b) (next v pos calls t o)
unfolding next
next-Based start b v pos calls t h ison once none = finish-Based start b v pos calls t h ison once
next-Based start b v pos calls t h ison once (some w) =
    advance-Based start b v pos calls t w (t.indices w) h refl

-- The stack is empty, and no node is marked as on it.
abbrev pub IsQuiet : Tarjan → Type 0
IsQuiet t = (t.stack ≡ []) × ((w : ℕ) → ¬ (t.on_stack w ≡ true))

pub visit_start-Based :
    (start : ℕ) (t : Tarjan)
    → IsQuiet t
    → Based start t.index_counter ((start, 0) ∷ []) (visit start ((start, 0) ∷ []) t)
unfolding visit
visit_start-Based start t (p, off) =
    let k = t.index_counter in
    (
      refl,
      subst (λ s. EndsWith start (start ∷ s)) (sym p) refl,
      update-same start (some k) t.indices,
      omega arith,
      rw (update-same start k t.lowlinks) (omega arith),
      (rw (update-same start k t.lowlinks) (omega arith), tt),
      λ x q.
          visit-Indexed k start k x t.stack t.indices t.on_stack (omega arith)
            (λ r. absurd (off x r)) q,
    )

abbrev pub Doing : ℕ → ℕ → List (ℕ × ℕ) → Tarjan → Type 0
Doing start b calls t =
    Based start b calls t ⊎ ((calls ≡ []) × (t.stack ≡ []) × ((w : ℕ) → ¬ (t.on_stack w ≡ true)))

pub Doing-IsQuiet : (start b : ℕ) (t : Tarjan) → Doing start b [] t → IsQuiet t
Doing-IsQuiet start b t (inl h) = absurd h.0
Doing-IsQuiet start b t (inr (p, q, off)) = (q, off)

cons_empty : {A : Type 0} {x : A} {xs : List A} → ¬ (x ∷ xs ≡ [])
cons_empty p = cc

pub Doing-Based :
    (start b : ℕ) (c : ℕ × ℕ) (calls : List (ℕ × ℕ)) (t : Tarjan)
    → Doing start b (c ∷ calls) t
    → Based start b (c ∷ calls) t
Doing-Based start b c calls t (inl h) = h
Doing-Based start b c calls t (inr (p, q, off)) = absurd (cons_empty p)
