-- ===== src/Server/Sound.antt =====
-- The caches of packages/agent/src/grackle/server.py stay within their bounds, and their entries are right.
use grackle.Base.{
  ℕ, ◌≤◌, String, List, [], ◌∷◌, Option, none, some, Bool, not, length, ltb, All, ◌≡◌, refl, sym,
  subst, ◌⊎◌, inl, inr, arith, if_split, ite,
}
use grackle.Base.Dict.{Keyed, get, put, pair_key, number_key, some_inj}
use grackle.Server.Signature.{
  StaticGraph, Signature, Triple, NodePart, graph_signature, predicted_heat_signature,
}
use grackle.Server.Push.{
  evict_oldest, cache_bounded, predicted_cache_max, meta_cache_max, ModelKey, Analysis, Caches,
  is_broken, with_heat, analysis_of, predicted, look_up, inject_predicted_heat,
}

evict_oldest-All {ℓ κ} :
    {A : Type ℓ} (P : A → Type κ) (n : ℕ) (m : List A) → All P m → All P (evict_oldest n m)
unfolding evict_oldest
evict_oldest-All P n [] h = tt
evict_oldest-All P n (e ∷ m) h =
    if_split (All P) (ltb n (length (e ∷ m))) _ _ (λ x. evict_oldest-All P n m h.1) (λ x. h)

length-evict_oldest {ℓ} : {A : Type ℓ} (n : ℕ) (m : List A) → length (evict_oldest n m) ≤ n
unfolding evict_oldest
length-evict_oldest n [] = omega arith
length-evict_oldest n (e ∷ m) = ground (arith, length-evict_oldest n m)

module _ {ℓ} {K V : Type ℓ} ⦃d : Keyed K⦄ where
  put-All {κ} :
      (P : K × V → Type κ) (k : K) (v : V) (m : List (K × V))
      → P (k, v)
      → All P m
      → All P (put k v m)
  unfolding put
  put-All P k v [] p h = (p, tt)
  put-All P k v ((j, w) ∷ m) p h =
      elim (d.same j k) as (λ q. All P (ite q ((j, v) ∷ m) ((j, w) ∷ put k v m))) [
        | yes e ↦ (subst (λ x. P (x, v)) (sym e) p, h.1)
        | no n ↦ (h.0, put-All P k v m p h.1)
      ]

  pub get-All {κ} :
      (P : K × V → Type κ) (k : K) (v : V) (m : List (K × V))
      → All P m
      → get k m ≡ some v
      → P (k, v)
  unfolding get
  get-All P k v [] h e = cc
  get-All P k v ((j, w) ∷ m) h e =
      elim (d.same j k) as (λ q. ite q (some w) (get k m) ≡ some v → P (k, v)) [
        | yes p ↦ λ f. subst P (λ i. (p i, some_inj f i)) h.0
        | no n ↦ λ f. get-All P k v m h.1 f
      ]
        e

  pub cache_bounded-All {κ} :
      (P : K × V → Type κ) (n : ℕ) (k : K) (v : V) (m : List (K × V))
      → P (k, v)
      → All P m
      → All P (cache_bounded n k v m) × (length (cache_bounded n k v m) ≤ n)
  unfolding cache_bounded
  cache_bounded-All P n k v m p h =
      (evict_oldest-All P n (put k v m) (put-All P k v m p h), length-evict_oldest n (put k v m))

module _ {H P : Type 0} ⦃d : Keyed H⦄ (hash_ids : List String × List Triple → H)
    (hash_parts : List NodePart × List Triple → H) (predict : StaticGraph P → ModelKey → Option P)
    (G : StaticGraph P → Type 0) where
  -- An entry of meta_cache is the analysis of a graph of G with its signature.
  abbrev pub IsAnalysis : Signature H × Analysis → Type 0
  IsAnalysis (sig, a) =
      (h : StaticGraph P) × G h × (graph_signature hash_ids h ≡ sig) × (a ≡ analysis_of h)

  -- An entry of the other cache is what the model predicts of a graph with its signature.
  abbrev IsPrediction : (H × ModelKey) × P → Type 0
  IsPrediction ((sig, key), p) =
      (h : StaticGraph P) × G h
      × (predicted_heat_signature hash_parts h ≡ sig)
      × (predict h key ≡ some p)

  -- Caches within their bounds, all of whose entries are right.
  abbrev pub IsSound : Caches H P → Type 0
  IsSound c =
      (All IsAnalysis c.meta_cache × (length c.meta_cache ≤ meta_cache_max))
      × (All IsPrediction c.cache × (length c.cache ≤ predicted_cache_max))

  -- A graph as it was parsed, or with a prediction of the model file for a graph of the same signature.
  abbrev pub HeatOf : Option ModelKey → StaticGraph P → StaticGraph P → Type 0
  HeatOf model g g' =
      (g' ≡ g)
      ⊎ ((key : ModelKey) × (p : P) × (h : StaticGraph P) × G h
          × (model ≡ some key)
          × (predicted_heat_signature hash_parts h ≡ predicted_heat_signature hash_parts g)
          × (predict h key ≡ some p)
          × (g' ≡ with_heat p g))

  abbrev pub Injected : Option ModelKey → StaticGraph P → StaticGraph P × Caches H P → Type 0
  Injected model g r = HeatOf model g r.0 × IsSound r.1

  predicted-Injected :
      (g : StaticGraph P) (key : ModelKey) (c : Caches H P)
      → G g
      → IsSound c
      → (o : Option P) → predict g key ≡ o
      → Injected
          (some key)
          g
          (predicted hash_ids hash_parts predict g (predicted_heat_signature hash_parts g) key o c)
  unfolding predicted
  predicted-Injected g key c i h none e = (inl refl, h)
  predicted-Injected g key c i h (some p) e =
      let sig = predicted_heat_signature hash_parts g in
      (
        inr (key, p, g, i, refl, refl, e, refl),
        (
          h.0,
          cache_bounded-All IsPrediction predicted_cache_max (sig, key) p c.cache (g, i, refl, e)
              h.1.0,
        ),
      )

  look_up-Injected :
      (g : StaticGraph P) (key : ModelKey) (c : Caches H P)
      → G g
      → IsSound c
      → (o : Option P) → get (predicted_heat_signature hash_parts g, key) c.cache ≡ o
      → Injected
          (some key)
          g
          (look_up hash_ids hash_parts predict g (predicted_heat_signature hash_parts g) key o c)
  unfolding look_up
  look_up-Injected g key c i h none e = predicted-Injected g key c i h (predict g key) refl
  look_up-Injected g key c i h (some p) e =
      let (k, m, same, f) =
        get-All IsPrediction (predicted_heat_signature hash_parts g, key) p c.cache h.1.0 e in
      (inr (key, p, k, m, refl, same, f, refl), h)

  pub inject-Injected :
      (model : Option ModelKey) (available : Bool) (g : StaticGraph P) (c : Caches H P)
      → G g
      → IsSound c
      → Injected model g (inject_predicted_heat hash_ids hash_parts predict model available g c)
  unfolding inject_predicted_heat
  inject-Injected none available g c i h = (inl refl, h)
  inject-Injected (some key) available g c i h =
      if_split (Injected (some key) g) (not available) _ _ (λ x. (inl refl, h))
        (λ x.
          if_split (Injected (some key) g) (is_broken key c.broken_models) _ _ (λ y. (inl refl, h))
            (λ y.
              look_up-Injected g key c i h
                (get (predicted_heat_signature hash_parts g, key) c.cache) refl))
