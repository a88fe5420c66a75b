-- ===== src/Profile/Labels.antt =====
-- The paths in the cache carry the ids that resolve gives to their frames.
use grackle.Profile.Climb.{climb-total, climb-start}
use grackle.Base.{
  refl, zero, Bool-cases, sym, length, subst, suc, none, ℕ, String, Option, some, List, [], ◌∷◌,
  true, arith, ◌≡◌, All, All-append, Option-cases, ◌⊎◌, inl, inr, is_some,
}
use grackle.Base.Dict.{Values-get, get-put, number_key, get, put, Values, Values-put}
use grackle.Profile.Tree.{
  parent, filtered_path, ProfileNode, Stack, among, climb, own, frame_id, extended, extend,
}

module _ {Frame : Type 0} (resolve : Frame → Option String)
    (nodes : List (ℕ × ProfileNode Frame)) where
  -- Each entry is the one that the code makes for its tree id.
  abbrev pub Labelled : Stack → Type 0
  Labelled path = All (λ o. own resolve nodes o.0 ≡ some o) path

  own-id : (tid : ℕ) (o : ℕ × String) → own resolve nodes tid ≡ some o → o.0 ≡ tid
  unfolding own frame_id
  own-id tid o h = ground arith

  own-some :
      (tid : ℕ) (o : ℕ × String) → own resolve nodes tid ≡ some o → own resolve nodes o.0 ≡ some o
  own-some tid o h = subst (λ t. own resolve nodes t ≡ some o) (sym (own-id tid o h)) h

  extended-Labelled :
      (base : Stack) (tid : ℕ) → Labelled base → Labelled (extended resolve nodes base tid)
  unfolding extended
  extended-Labelled base tid h = elim (Option-cases (own resolve nodes tid)) [
    | inl e ↦ rw (e, extended) h
    | inr (o, e) ↦ rw (e, extended) (All-append _ base (o ∷ []) h (own-some tid o e, tt))
  ]

  extend-Labelled :
      (pending : List ℕ) (base : Stack) (cache : List (ℕ × Stack))
      → Labelled base
      → Values Labelled cache
      → Values Labelled (extend resolve nodes pending base cache)
  unfolding extend
  extend-Labelled [] base cache h k = k
  extend-Labelled (tid ∷ rest) base cache h k =
      let here = extended-Labelled base tid h in
      extend-Labelled rest (extended resolve nodes base tid)
        (put tid (extended resolve nodes base tid) cache) here
        (Values-put Labelled tid (extended resolve nodes base tid) cache k here)

  -- The walk stops at a path of the cache, or at none.
  abbrev BaseLabelled : Option (List ℕ × Stack) → Type 0
  BaseLabelled none = Unit
  BaseLabelled (some (r, base)) = Labelled base

  climb-BaseLabelled :
      (parent_of : List (ℕ × Option ℕ)) (cache : List (ℕ × Stack)) (fuel : ℕ) (cur : Option ℕ)
      (pending : List ℕ)
      → Values Labelled cache
      → BaseLabelled (climb parent_of cache fuel cur pending)
  unfolding climb
  climb-BaseLabelled parent_of cache zero none pending h = tt
  climb-BaseLabelled parent_of cache zero (some cur) pending h = tt
  climb-BaseLabelled parent_of cache (suc fuel) none pending h = tt
  climb-BaseLabelled parent_of cache (suc fuel) (some cur) pending h =
      elim (Bool-cases (among cur pending)) [
        | inl e ↦ rw (e, climb) tt
        | inr e ↦ elim (Option-cases (get cur cache)) [
          | inl g ↦
              rw (e, climb, g)
                (climb-BaseLabelled parent_of cache fuel (parent parent_of cur) (cur ∷ pending) h)
          | inr (hit, g) ↦ rw (e, climb, g) (Values-get Labelled cur hit cache h g)
        ]
      ]

  -- A pending node has a path when the cache has been extended.
  extend-get :
      (c : ℕ) (pending : List ℕ) (base : Stack) (cache : List (ℕ × Stack))
      → (among c pending ≡ true) ⊎ (is_some (get c cache) ≡ true)
      → is_some (get c (extend resolve nodes pending base cache)) ≡ true
  unfolding extend
  extend-get c [] base cache h = ground arith
  extend-get c (tid ∷ rest) base cache h =
      extend-get c rest (extended resolve nodes base tid)
        (put tid (extended resolve nodes base tid) cache)
        (ground (arith, get-put tid c (extended resolve nodes base tid) cache))

  walked :
      (parent_of : List (ℕ × Option ℕ)) (cache : List (ℕ × Stack)) (c : ℕ) (r : List ℕ)
      (base : Stack)
      → Values Labelled cache
      → get c cache ≡ none
      → climb parent_of cache (suc (suc (length parent_of))) (some c) [] ≡ some (r, base)
      → (path : Stack) × (cache' : List (ℕ × Stack)) × (filtered_path resolve nodes parent_of cache
            c
          ≡ some (path, cache'))
        × Labelled path
        × Values Labelled cache'
  unfolding filtered_path
  walked parent_of cache c r base h e w =
      let base_ok =
        subst BaseLabelled w
          (climb-BaseLabelled parent_of cache (suc (suc (length parent_of))) (some c) [] h) in
      let cache' = extend resolve nodes r base cache in
      let cache_ok = extend-Labelled r base cache base_ok h in
      elim (Option-cases (get c cache')) [
        | inl g ↦ cc (
          extend-get c r base cache
              (inl (climb-start parent_of cache (suc (suc (length parent_of))) c r base e w)),
          g,
        )
        | inr (path, g) ↦ (
          path,
          cache',
          rw (e, w, g, filtered_path) refl,
          Values-get Labelled c path cache' cache_ok g,
          cache_ok,
        )
      ]

  -- A stack is found for every node, whatever the call tree looks like, and the cache stays right.
  pub filtered_path-Labelled :
      (parent_of : List (ℕ × Option ℕ)) (cache : List (ℕ × Stack)) (c : ℕ)
      → Values Labelled cache
      → (path : Stack) × (cache' : List (ℕ × Stack)) × (filtered_path resolve nodes parent_of cache
            c
          ≡ some (path, cache'))
        × Labelled path
        × Values Labelled cache'
  unfolding filtered_path
  filtered_path-Labelled parent_of cache c h = elim (Option-cases (get c cache)) [
    | inr (path, e) ↦
        (path, cache, rw (e, filtered_path) refl, Values-get Labelled c path cache h e, h)
    | inl e ↦
        let (r, base, w) =
          climb-total parent_of cache c (suc (suc (length parent_of))) (omega arith) in
        walked parent_of cache c r base h e w
  ]
