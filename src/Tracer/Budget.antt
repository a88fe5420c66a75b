-- ===== src/Tracer/Budget.antt =====
-- The bounds that every run of the tracer keeps: the event cap and the budget of captured values.
use grackle.Base.{
  ℕ, ◌+◌, ◌≤◌, String, List, [], ◌∷◌, ◌++◌, Option, none, some, true, false, length, length-append,
  ◌≡◌, refl, ◌≢◌, ite, arith, Bool-cases, inl, inr, ltb,
}
use grackle.Base.Dict.{get_default, get_default-put, number_key}
use grackle.Base.Text.{string_key, String_discrete}
use grackle.Tracer.{
  TraceOptions, TraceValues, TraceEvent, Tracer, SinkResult, accepted, interrupted, failed,
  is_capped,
}
use grackle.Tracer.Callbacks.{hand_over, emit, budget_remaining, deliver, charged}

-- 1 if an event of the node with these values counts as a capture at n.
unfoldable pub weight : Option TraceValues → String → String → ℕ
weight none node_id n = 0
weight (some values) node_id n = ite (String_discrete node_id n) 1 0

-- The number of events of a node that have values.
unfoldable pub captured : String → List TraceEvent → ℕ
captured n [] = 0
captured n (e ∷ es) = weight e.values e.node_id n + captured n es

captured-append :
    (n : String) (xs ys : List TraceEvent) → captured n (xs ++ ys) ≡ captured n xs + captured n ys
unfolding captured
captured-append n [] ys = omega arith
captured-append n (e ∷ xs) ys = omega (arith, captured-append n xs ys)

one_more :
    {a b : String} (q : Dec (a ≡ b)) (f : String → ℕ) → ite q (f a + 1) (f b) ≡ ite q 1 0 + f b
one_more (yes p) f = rw p (omega arith)
one_more (no p) f = omega arith

one_more-le :
    {a b : String} (q : Dec (a ≡ b)) (f : String → ℕ) (m : ℕ)
    → ltb (f a) m ≡ true
    → f b ≤ m
    → ite q (f a + 1) (f b) ≤ m
one_more-le {a} (yes p) f m l h = let k : f a + 1 ≤ m = ground arith in k
one_more-le (no p) f m l h = h

charged-keeps :
    (values : Option TraceValues) (node_id : String) (t : Tracer)
    → ((charged values node_id t).events ≡ t.events)
      × ((charged values node_id t).handed ≡ t.handed)
      × ((charged values node_id t).count ≡ t.count)
unfolding charged
charged-keeps none node_id t = (refl, refl, refl)
charged-keeps (some values) node_id t = (refl, refl, refl)

-- How many events of a node came with values, in the list and to the sink.
abbrev pub captures_of : String → Tracer → ℕ
captures_of n t = captured n t.events + captured n t.handed

charged-counts :
    (values : Option TraceValues) (node_id n : String) (t : Tracer)
    → get_default n 0 (charged values node_id t).value_capture_counts
      ≡ weight values node_id n + get_default n 0 t.value_capture_counts
unfolding charged weight
charged-counts none node_id n t = omega arith
charged-counts (some values) node_id n t =
    let c = t.value_capture_counts in
    rw (get_default-put node_id n 0 (get_default node_id 0 c + 1) c)
      (one_more (String_discrete node_id n) (λ i. get_default i 0 c))

module _ (options : TraceOptions) (sink : Option (TraceEvent → SinkResult)) where
  -- The event cap holds; each event that was counted is in the list or was handed to the sink; and neither
  -- the budget of a node nor the number of its events with values exceeds capture_first_n.
  pub record IsBounded (t : Tracer) : Type 0 where
    pub within_cap : (m : ℕ) → options.max_events ≡ some m → t.count ≤ m
    pub listed : length t.events + length t.handed ≡ t.count
    pub budget : (n : String) → get_default n 0 t.value_capture_counts ≤ options.capture_first_n
    pub captures : (n : String) → captures_of n t ≤ get_default n 0 t.value_capture_counts

  is_capped_lem :
      (count m : ℕ)
      → is_capped count options.max_events ≡ false
      → options.max_events ≡ some m
      → count + 1 ≤ m
  unfolding is_capped
  is_capped_lem count m h e = ground arith

  hand_over-IsBounded : (r : SinkResult) (t : Tracer) → IsBounded t → IsBounded (hand_over r t).0
  unfolding hand_over
  hand_over-IsBounded accepted t h = h
  hand_over-IsBounded interrupted t h = h
  hand_over-IsBounded (failed e) t h = record {
    within_cap = h.within_cap;
    listed = h.listed;
    budget = h.budget;
    captures = h.captures;
  }

  -- One event more, which is counted and whose values are charged.
  deliver-IsBounded :
      (s : Option (TraceEvent → SinkResult)) (event : TraceEvent) (t : Tracer)
      → ((m : ℕ) → options.max_events ≡ some m → t.count ≤ m)
      → length t.events + length t.handed + 1 ≡ t.count
      → ((n : String) → get_default n 0 t.value_capture_counts ≤ options.capture_first_n)
      → ((n : String)
          → captures_of n t + weight event.values event.node_id n
            ≤ get_default n 0 t.value_capture_counts)
      → IsBounded (deliver s event t).0
  unfolding deliver captured
  deliver-IsBounded none event t cap listed budget captures = record {
    within_cap = cap;
    listed = omega (arith, length-append t.events (event ∷ []), listed);
    budget = budget;
    captures = λ n. omega (arith, captured-append n t.events (event ∷ []), captures n);
  }
  deliver-IsBounded (some call) event t cap listed budget captures =
      hand_over-IsBounded (call event) (record t { handed = t.handed ++ event ∷ [] })
        (record {
          within_cap = cap;
          listed = omega (arith, length-append t.handed (event ∷ []), listed);
          budget = budget;
          captures = λ n. omega (arith, captured-append n t.handed (event ∷ []), captures n);
        })

  pub emit-IsBounded :
      (event : TraceEvent) (t : Tracer)
      → ((m : ℕ) → options.max_events ≡ some m → t.count ≤ m)
      → length t.events + length t.handed ≡ t.count
      → ((n : String) → get_default n 0 t.value_capture_counts ≤ options.capture_first_n)
      → ((n : String)
          → captures_of n t + weight event.values event.node_id n
            ≤ get_default n 0 t.value_capture_counts)
      → IsBounded (emit options sink event t).0
  unfolding emit
  emit-IsBounded event t cap listed budget captures =
      elim (Bool-cases (is_capped t.count options.max_events)) [
        | inl full ↦ rw full (record {
          within_cap = cap;
          listed = listed;
          budget = budget;
          captures = λ n. omega (arith, captures n);
        })
        | inr free ↦ rw free (
            deliver-IsBounded sink event (record t { count = t.count + 1 })
              (λ m e. is_capped_lem t.count m free e) (omega (arith, listed)) budget captures)
      ]

  -- The budget stands where values are captured only while some is left.
  charged-budget :
      (values : Option TraceValues) (node_id : String) (t : Tracer)
      → (values ≢ none → budget_remaining options sink node_id t ≡ true)
      → ((n : String) → get_default n 0 t.value_capture_counts ≤ options.capture_first_n)
      → (n : String)
      → get_default n 0 (charged values node_id t).value_capture_counts ≤ options.capture_first_n
  unfolding charged budget_remaining
  charged-budget none node_id t left budget n = budget n
  charged-budget (some values) node_id t left budget n =
      let c = t.value_capture_counts in
      rw (get_default-put node_id n 0 (get_default node_id 0 c + 1) c) (
        one_more-le (String_discrete node_id n) (λ i. get_default i 0 c) options.capture_first_n
          (left (λ e. cc)) (budget n))

  -- An event whose values are charged right before it.
  pub charged-IsBounded :
      (event : TraceEvent) (t : Tracer)
      → (event.values ≢ none → budget_remaining options sink event.node_id t ≡ true)
      → IsBounded t
      → IsBounded (emit options sink event (charged event.values event.node_id t)).0
  charged-IsBounded event t left b =
      let kept = charged-keeps event.values event.node_id t in
      emit-IsBounded event (charged event.values event.node_id t) (rw kept.2 b.within_cap)
        (rw (kept.0, kept.1, kept.2) b.listed)
        (charged-budget event.values event.node_id t left b.budget)
        (λ n.
          rw (kept.0, kept.1)
            (omega (arith, charged-counts event.values event.node_id n t, b.captures n)))

  pub with_depth-IsBounded :
      (t : Tracer) (d : List (ℕ × ℕ)) → IsBounded t → IsBounded (record t { depth = d })
  with_depth-IsBounded t d b = record {
    within_cap = b.within_cap;
    listed = b.listed;
    budget = b.budget;
    captures = b.captures;
  }
