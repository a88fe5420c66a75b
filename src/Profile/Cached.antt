-- ===== src/Profile/Cached.antt =====
-- The cache changes nothing: a stack is the entries of the node and of its ancestors.
use grackle.Profile.Climb.{climb-total}
use grackle.Base.{
  length, inr, All-mono, inl, Option-cases, arith, ℕ, zero, suc, ◌<◌, String, Option, none, some,
  List, [], ◌∷◌, false, ◌≡◌, refl, sym, ap, subst, ◌∙◌, All,
}
use grackle.Base.Dict.{get-put, number_key, get, put}
use grackle.Profile.Tree.{filtered_path, ProfileNode, Stack, among, climb, parent, extended, extend}
use native.Mathlib.Decide.{ℕ_discrete}

module _ {Frame : Type 0} (resolve : Frame → Option String) (nodes : List (ℕ × ProfileNode Frame))
    (parent_of : List (ℕ × Option ℕ)) where
  -- The stack of a node that stands `n` steps below a root, by its ancestors alone.
  abbrev pub PathOf : ℕ → ℕ → Stack → Type 0
  PathOf zero c path = (parent parent_of c ≡ none) × (path ≡ extended resolve nodes [] c)
  PathOf (suc n) c path =
      (p : ℕ) × (above : Stack) × (parent parent_of c ≡ some p)
      × PathOf n p above
      × (path ≡ extended resolve nodes above c)

  PathOf-unique : (m n c : ℕ) (k l : Stack) → PathOf m c k → PathOf n c l → (m ≡ n) × (k ≡ l)
  PathOf-unique zero zero c k l (r, e) (s, f) = (refl, e ∙ sym f)
  PathOf-unique zero (suc n) c k l (r, e) (p, above, q, a, f) = cc
  PathOf-unique (suc m) zero c k l (p, above, q, a, f) (r, e) = cc
  PathOf-unique (suc m) (suc n) c k l (p, above, q, a, e) (p', above', q', a', f) =
      let same : p' ≡ p = cc in
      let (d, i) = PathOf-unique m n p above above' a (subst (λ x. PathOf n x above') same a') in
      (ap suc d, cc)

  -- Each entry of the cache is the stack of its node.
  abbrev pub Right : List (ℕ × Stack) → Type 0
  Right cache = (j : ℕ) (k : Stack) → get j cache ≡ some k → (m : ℕ) × PathOf m j k

  Right-put :
      (n c : ℕ) (l : Stack) (cache : List (ℕ × Stack))
      → PathOf n c l
      → Right cache
      → Right (put c l cache)
  Right-put n c l cache h r j k e = elim (ℕ_discrete c j) [
    | yes p ↦ (
      n,
      subst (λ x. PathOf n x k) p (subst (PathOf n c) (ground (arith, get-put c j l cache)) h),
    )
    | no p ↦ r j k (ground (arith, get-put c j l cache))
  ]

  -- The nodes stand deeper than `n`.
  abbrev Deeper : ℕ → List ℕ → Type 0
  Deeper n pending = All (λ d. (m : ℕ) × (k : Stack) × PathOf m d k × (n < m)) pending

  Deeper-among :
      (n c : ℕ) (l : Stack) (pending : List ℕ)
      → PathOf n c l
      → Deeper n pending
      → among c pending ≡ false
  Deeper-among n c l [] h d = refl
  Deeper-among n c l (j ∷ pending) h ((m, k, p, lt), d) = elim (ℕ_discrete c j) [
    | yes e ↦
        absurd (omega (arith, (PathOf-unique m n c k l (subst (λ x. PathOf m x k) (sym e) p) h).0))
    | no e ↦ ground (arith, Deeper-among n c l pending h d)
  ]

  -- What the walk and the extension leave behind.
  abbrev Reached : ℕ → Stack → List ℕ → List (ℕ × Stack) → List ℕ → Stack → Type 0
  Reached cur l pending cache r base =
      (cache' : List (ℕ × Stack)) × (extend resolve nodes r base cache
        ≡ extend resolve nodes pending l cache')
      × Right cache'
      × (get cur cache' ≡ some l)

  both :
      {r s : List ℕ} {k l : Stack}
      → ◌≡◌ {A = Option (List ℕ × Stack)} (some (r, k)) (some (s, l))
      → (r ≡ s) × (k ≡ l)
  both h = (cc, cc)

  climb-suc :
      (fuel cur : ℕ) (pending : List ℕ) (cache : List (ℕ × Stack))
      → among cur pending ≡ false
      → get cur cache ≡ none
      → climb parent_of cache (suc fuel) (some cur) pending
        ≡ climb parent_of cache fuel (parent parent_of cur) (cur ∷ pending)
  unfolding climb
  climb-suc fuel cur pending cache h k = rw (h, k, climb) refl

  climb-hit :
      (fuel cur : ℕ) (pending : List ℕ) (cache : List (ℕ × Stack)) (hit : Stack)
      → among cur pending ≡ false
      → get cur cache ≡ some hit
      → climb parent_of cache (suc fuel) (some cur) pending ≡ some (pending, hit)
  unfolding climb
  climb-hit fuel cur pending cache hit h k = rw (h, k, climb) refl

  climb-none :
      (fuel : ℕ) (pending : List ℕ) (cache : List (ℕ × Stack))
      → climb parent_of cache fuel none pending ≡ some (pending, [])
  unfolding climb
  climb-none zero pending cache = refl
  climb-none (suc fuel) pending cache = refl

  Reached-here :
      (n cur : ℕ) (l above : Stack) (pending : List ℕ) (cache cache' : List (ℕ × Stack))
      (r : List ℕ) (base : Stack)
      → PathOf n cur l
      → l ≡ extended resolve nodes above cur
      → extend resolve nodes r base cache ≡ extend resolve nodes (cur ∷ pending) above cache'
      → Right cache'
      → Reached cur l pending cache r base
  unfolding extend
  Reached-here n cur l above pending cache cache' r base h q e k = (
    put cur l cache',
    rw q e,
    Right-put n cur l cache' h k,
    ground (arith, get-put cur cur l cache'),
  )

  step-Reached :
      (n fuel cur : ℕ) (l : Stack) (pending : List ℕ) (cache : List (ℕ × Stack)) (r : List ℕ)
      (base : Stack)
      → PathOf n cur l
      → Right cache
      → Deeper n pending
      → climb parent_of cache fuel (parent parent_of cur) (cur ∷ pending) ≡ some (r, base)
      → ((m p : ℕ) (above : Stack)
          → PathOf m p above
          → Deeper m (cur ∷ pending)
          → climb parent_of cache fuel (some p) (cur ∷ pending) ≡ some (r, base)
          → Reached p above (cur ∷ pending) cache r base)
      → Reached cur l pending cache r base
  step-Reached zero fuel cur l pending cache r base (root, e) k d w ih =
      let (same, empty) = both (
        sym (climb-none fuel (cur ∷ pending) cache)
        ∙ ap (λ q. climb parent_of cache fuel q (cur ∷ pending)) (sym root)
        ∙ w) in
      Reached-here zero cur l [] pending cache cache r base (root, e) e (cc) k
  step-Reached (suc n) fuel cur l pending cache r base (p, above, q, a, e) k d w ih =
      let below : Deeper n (cur ∷ pending) = (
        (suc n, l, (p, above, q, a, e), omega arith),
        All-mono (λ d. (m : ℕ) × (k : Stack) × PathOf m d k × (suc n < m))
            (λ d. (m : ℕ) × (k : Stack) × PathOf m d k × (n < m))
            (λ j (m, k, h, lt). (m, k, h, omega arith)) pending d,
      ) in
      let (cache', x, right, got) =
        ih n p above a below (ap (λ q. climb parent_of cache fuel q (cur ∷ pending)) (sym q) ∙ w) in
      Reached-here (suc n) cur l above pending cache cache' r base (p, above, q, a, e) e x right

  climb-Reached :
      (n fuel cur : ℕ) (l : Stack) (pending : List ℕ) (cache : List (ℕ × Stack)) (r : List ℕ)
      (base : Stack)
      → PathOf n cur l
      → Right cache
      → Deeper n pending
      → climb parent_of cache fuel (some cur) pending ≡ some (r, base)
      → Reached cur l pending cache r base
  unfolding climb
  climb-Reached n zero cur l pending cache r base h k d e = cc
  climb-Reached n (suc fuel) cur l pending cache r base h k d e =
      let new = Deeper-among n cur l pending h d in
      elim (Option-cases (get cur cache)) [
        | inl g ↦
            step-Reached n fuel cur l pending cache r base h k d
              (sym (climb-suc fuel cur pending cache new g) ∙ e)
              (λ m p above a b w. climb-Reached m fuel p above (cur ∷ pending) cache r base a k b w)
        | inr (hit, g) ↦
            let (same, found) = both (sym (climb-hit fuel cur pending cache hit new g) ∙ e) in
            let (m, p) = k cur hit g in
            let (deep, right) = PathOf-unique m n cur hit l p h in (cache, cc, k, cc)
      ]

  found :
      (c : ℕ) (l : Stack) (cache : List (ℕ × Stack)) (r : List ℕ) (base : Stack)
      → get c cache ≡ none
      → climb parent_of cache (suc (suc (length parent_of))) (some c) [] ≡ some (r, base)
      → get c (extend resolve nodes r base cache) ≡ some l
      → filtered_path resolve nodes parent_of cache c ≡ some (l, extend resolve nodes r base cache)
  unfolding filtered_path
  found c l cache r base e w g = rw (e, w, g, filtered_path) refl

  walked :
      (n c : ℕ) (l : Stack) (cache : List (ℕ × Stack)) (r : List ℕ) (base : Stack)
      → get c cache ≡ none
      → climb parent_of cache (suc (suc (length parent_of))) (some c) [] ≡ some (r, base)
      → Reached c l [] cache r base
      → (cache' : List (ℕ × Stack)) × (filtered_path resolve nodes parent_of cache c
          ≡ some (l, cache'))
        × Right cache'
  unfolding extend
  walked n c l cache r base e w (cache', x, right, got) = (
    extend resolve nodes r base cache,
    found c l cache r base e w (ap (get c) x ∙ got),
    subst Right (sym x) right,
  )

  -- The stack that the code finds, with any cache that earlier calls left, is that of the node and
  -- its ancestors; and the cache stays right.
  pub filtered_path-PathOf :
      (n c : ℕ) (l : Stack) (cache : List (ℕ × Stack))
      → PathOf n c l
      → Right cache
      → (cache' : List (ℕ × Stack)) × (filtered_path resolve nodes parent_of cache c
          ≡ some (l, cache'))
        × Right cache'
  unfolding filtered_path
  filtered_path-PathOf n c l cache h k = elim (Option-cases (get c cache)) [
    | inr (path, e) ↦
        let (m, p) = k c path e in
        (cache, rw (e, (PathOf-unique m n c path l p h).1, filtered_path) refl, k)
    | inl e ↦
        let (r, base, w) =
          climb-total parent_of cache c (suc (suc (length parent_of))) (omega arith) in
        walked n c l cache r base e w
          (climb-Reached n (suc (suc (length parent_of))) c l [] cache r base h k tt w)
  ]
