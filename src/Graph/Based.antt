-- ===== src/Graph/Based.antt =====
-- What holds in the search of _compute_cycles in packages/agent/src/grackle/graph_analysis.py from one start.
use grackle.Base.{
  ℕ, suc, ◌≤◌, min, List, [], ◌∷◌, Option, none, some, Bool, true, false, ◌==◌, ◌≡◌, refl, sym, ap,
  ◌∙◌, subst, All, arith, ◌⊎◌, inl, inr, Bool-cases, if_split,
}
use grackle.Base.Dict.{some_inj}
use grackle.Base.Result.{Result, ok, raise}
use grackle.Graph.Cycles.{update, Tarjan, visit, back_edge, leave_stack, advance}
use grackle.Graph.Stack.{occurs, EndsWith, EndsWith-cons}

-- The call that was pushed first.
abbrev pub LastCall : ℕ → List (ℕ × ℕ) → Type 0
LastCall x [] = ⊥
LastCall x (c ∷ []) = c.0 ≡ x
LastCall x (c ∷ d ∷ ds) = LastCall x (d ∷ ds)

pub leave_stack_lem :
    (scc : List ℕ) (on : ℕ → Bool) (w : ℕ)
    → leave_stack scc on w ≡ true
    → (on w ≡ true) × (occurs w scc ≡ 0)
unfolding leave_stack update
leave_stack_lem [] on w h = (h, refl)
leave_stack_lem (x ∷ xs) on w h =
    let (a, b) = leave_stack_lem xs (update x false on) w h in (ground arith, ground arith)

-- What holds while the calls are not empty: b is the index of the start.
abbrev pub Based : ℕ → ℕ → List (ℕ × ℕ) → Tarjan → Type 0
Based start b calls t =
    LastCall start calls
    × EndsWith start t.stack
    × (t.indices start ≡ some b)
    × (b ≤ t.index_counter)
    × (t.lowlinks start ≤ b)
    × All (λ c. b ≤ t.lowlinks c.0) calls
    × ((w : ℕ)
        → t.on_stack w ≡ true
        → (1 ≤ occurs w t.stack) × ((i : ℕ) × (t.indices w ≡ some i) × (b ≤ i)))

-- The search from a start is over, with an empty stack.
abbrev pub IsEmptied : Tarjan → Type 0
IsEmptied t = (t.call_stack ≡ []) × (t.stack ≡ []) × ((w : ℕ) → ¬ (t.on_stack w ≡ true))

abbrev pub Outcome : ℕ → ℕ → Tarjan → Type 0
Outcome start b t = Based start b t.call_stack t ⊎ IsEmptied t

abbrev pub IfOk : (Tarjan → Type 0) → Result Tarjan → Type 0
IfOk P (ok t) = P t
IfOk P (raise e) = Unit

LastCall-pos :
    (x v pos pos' : ℕ) (calls : List (ℕ × ℕ))
    → LastCall x ((v, pos) ∷ calls)
    → LastCall x ((v, pos') ∷ calls)
LastCall-pos x v pos pos' [] h = h
LastCall-pos x v pos pos' (c ∷ cs) h = h

pub low-update :
    (b w k : ℕ) (low : ℕ → ℕ) (calls : List (ℕ × ℕ))
    → b ≤ k
    → All (λ c. b ≤ low c.0) calls
    → All (λ c. b ≤ update w k low c.0) calls
unfolding update
low-update b w k low [] h a = tt
low-update b w k low (c ∷ calls) h a = (ground arith, low-update b w k low calls h a.1)

update-other : {A : Type 0} (w x : ℕ) (k : A) (f : ℕ → A) → ¬ (w ≡ x) → update w k f x ≡ f x
unfolding update
update-other w x k f d = ground arith

pub update-same : {A : Type 0} (w : ℕ) (k : A) (f : ℕ → A) → update w k f w ≡ k
unfolding update
update-same w k f = ground arith

-- A minimum taken into a lowlink keeps that of the start from growing.
pub update-min : (v k x b : ℕ) (low : ℕ → ℕ) → low x ≤ b → update v (min (low v) k) low x ≤ b
unfolding update
update-min v k x b low h = grind arith

-- A node on the stack has its index.
abbrev pub Indexed : ℕ → ℕ → List ℕ → (ℕ → Option ℕ) → Type 0
Indexed b w stack indices = (1 ≤ occurs w stack) × ((i : ℕ) × (indices w ≡ some i) × (b ≤ i))

pub visit-Indexed :
    (b w i x : ℕ) (stack : List ℕ) (indices : ℕ → Option ℕ) (on : ℕ → Bool)
    → b ≤ i
    → (on x ≡ true → Indexed b x stack indices)
    → update w true on x ≡ true
    → Indexed b x (w ∷ stack) (update w (some i) indices)
unfolding update
visit-Indexed b w i x stack indices on h old q = elim (Bool-cases (x == w)) [
  | inl e ↦ (ground arith, (i, rw e refl, h))
  | inr e ↦ let (a, (j, f, k)) = old (rw e at q) in (ground arith, (j, rw e f, k))
]

module _ (start b v pos : ℕ) (calls : List (ℕ × ℕ)) (t : Tarjan)
    (h : Based start b ((v, pos) ∷ calls) t) where
  pub visit-Based :
      (w : ℕ)
      → t.indices w ≡ none
      → Based start b ((w, 0) ∷ (v, suc pos) ∷ calls) (advance v pos calls t w none)
  unfolding advance visit
  visit-Based w e =
      let (last, ends, ix, count, low, lows, on) = h in
      let d : ¬ (w ≡ start) = λ p. cc (sym e ∙ (ap t.indices p ∙ ix)) in
      (
        LastCall-pos start v pos (suc pos) calls last,
        EndsWith-cons w start t.stack ends,
        update-other w start (some t.index_counter) t.indices d ∙ ix,
        omega arith,
        rw (update-other w start t.index_counter t.lowlinks d) low,
        (
          rw (update-same w t.index_counter t.lowlinks) count,
          low-update b w t.index_counter t.lowlinks ((v, pos) ∷ calls) count lows,
        ),
        λ x q. visit-Indexed b w t.index_counter x t.stack t.indices t.on_stack count (on x) q,
      )

  pub back-Based :
      (w i : ℕ)
      → t.indices w ≡ some i
      → Based start b ((v, suc pos) ∷ calls) (advance v pos calls t w (some i))
  unfolding advance back_edge
  back-Based w i e =
      let (last, ends, ix, count, low, lows, on) = h in
      let old = t.lowlinks in
      let new : ℕ → ℕ = update v (min (t.lowlinks v) i) t.lowlinks in
      (
        LastCall-pos start v pos (suc pos) calls last,
        ends,
        ix,
        count,
        if_split (λ f. f start ≤ b) (t.on_stack w) new old
            (λ q. update-min v i start b t.lowlinks low) (λ q. low),
        if_split (λ f. All (λ x. b ≤ f x.0) ((v, suc pos) ∷ calls)) (t.on_stack w) new old
            (λ q.
              let (a, (j, f, k)) = on w q in
              let below : b ≤ i = subst (λ x. b ≤ x) (some_inj (sym f ∙ e)) k in
              low-update b v (min (t.lowlinks v) i) t.lowlinks ((v, suc pos) ∷ calls)
                (omega (arith, lows.0)) lows)
            (λ q. lows),
        on,
      )
