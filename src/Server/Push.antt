-- ===== src/Server/Push.antt =====
-- packages/agent/src/grackle/server.py: the graph that is pushed to a client, with its bounded caches. The
-- prediction of packages/agent/src/grackle/ml_bridge.py is a parameter, none where it raises MLBridgeError.
use grackle.Base.{
  ℕ, String, List, [], ◌∷◌, Option, none, some, Bool, true, false, not, length, ltb, if◌then◌else◌,
  is_yes,
}
use grackle.Base.Int.{ℤ}
use grackle.Base.Dict.{Keyed, get, put, pair_key, number_key}
use grackle.Graph.{compute_hub_score}
use grackle.Graph.Entries.{Cycle, compute_cycles, ends_of}
use grackle.Base.{map}
use grackle.Server.Signature.{
  StaticGraph, Signature, Triple, NodePart, ids_of, graph_signature, predicted_heat_signature,
}

-- `while len(cache) > limit`: the oldest entry goes first.
unfoldable pub evict_oldest {ℓ} : {A : Type ℓ} → ℕ → List A → List A
evict_oldest limit [] = []
evict_oldest limit (e ∷ cache) =
    let rest = evict_oldest limit cache in
    if ltb limit (length (e ∷ cache)) then rest else e ∷ cache

-- `_cache_bounded`, where no other thread takes part.
unfoldable pub cache_bounded {ℓ} :
    {K V : Type ℓ} ⦃d : Keyed K⦄ → ℕ → K → V → List (K × V) → List (K × V)
unfolding evict_oldest put
cache_bounded limit key value cache = evict_oldest limit (put key value cache)

-- `_PREDICTED_CACHE_MAX` and `_META_CACHE_MAX`
abbrev pub predicted_cache_max : ℕ
predicted_cache_max = 16

abbrev pub meta_cache_max : ℕ
meta_cache_max = 64

-- The time in nanoseconds and the size of a model file.
abbrev pub ModelKey : Type 0
ModelKey = ℕ × ℕ

-- The values of meta_cache.
pub record Analysis : Type 0 where
  pub hub_score : List (String × ℤ)
  pub cycles : List Cycle

-- The caches of _PredictedHeatContext, and meta_cache.
pub record Caches (H P : Type 0) : Type 0 where
  pub cache : List ((H × ModelKey) × P)
  pub gate_warned : Bool
  pub broken_models : List ModelKey
  pub meta_cache : List (Signature H × Analysis)

abbrev pub is_broken : ModelKey → List ModelKey → Bool
is_broken key [] = false
is_broken key (k ∷ keys) = if is_yes (pair_key.same k key) then true else is_broken key keys

module _ {P : Type 0} where
  abbrev pub with_heat : P → StaticGraph P → StaticGraph P
  with_heat p graph = record graph { metadata = record graph.metadata { predicted_heat = some p } }

  abbrev pub with_analysis : Analysis → StaticGraph P → StaticGraph P
  with_analysis a graph = record graph {
    metadata = record graph.metadata { hub_score = some a.hub_score; cycles = some a.cycles };
  }

  -- The values that `enrich_metadata` sets.
  unfoldable pub analysis_of : StaticGraph P → Analysis
  unfolding compute_hub_score compute_cycles
  analysis_of graph = record {
    hub_score = compute_hub_score (ids_of graph.nodes) (map ends_of graph.edges);
    cycles = compute_cycles (ids_of graph.nodes) graph.edges;
  }

module _ {H P : Type 0} where
  module _ ⦃d : Keyed H⦄ (hash_ids : List String × List Triple → H)
      (hash_parts : List NodePart × List Triple → H)
      (predict : StaticGraph P → ModelKey → Option P) where
    -- What a prediction leaves: one that raises marks the file.
    unfoldable pub predicted :
        StaticGraph P → H → ModelKey → Option P → Caches H P → StaticGraph P × Caches H P
    unfolding cache_bounded
    predicted graph sig key none c = (graph, record c { broken_models = key ∷ c.broken_models })
    predicted graph sig key (some p) c = (
      with_heat p graph,
      record c { cache = cache_bounded predicted_cache_max (sig, key) p c.cache },
    )

    unfoldable pub look_up :
        StaticGraph P → H → ModelKey → Option P → Caches H P → StaticGraph P × Caches H P
    unfolding predicted
    look_up graph sig key (some p) c = (with_heat p graph, c)
    look_up graph sig key none c = predicted graph sig key (predict graph key) c

    -- `_maybe_inject_predicted_heat`: the model file that is found, and whether the package is there.
    unfoldable pub inject_predicted_heat :
        Option ModelKey → Bool → StaticGraph P → Caches H P → StaticGraph P × Caches H P
    unfolding look_up get predicted_heat_signature
    inject_predicted_heat none available graph c = (graph, c)
    inject_predicted_heat (some key) available graph c =
        if not available
        then (graph, record c { gate_warned = true })
        else if is_broken key c.broken_models
        then (graph, c)
        else let sig = predicted_heat_signature hash_parts graph in
          look_up graph sig key (get (sig, key) c.cache) c

    unfoldable pub analysed :
        Signature H → Option Analysis → StaticGraph P × Caches H P → StaticGraph P × Caches H P
    unfolding cache_bounded analysis_of
    analysed sig (some a) (graph, c) = (with_analysis a graph, c)
    analysed sig none (graph, c) =
        let a = analysis_of graph in
        (
          with_analysis a graph,
          record c { meta_cache = cache_bounded meta_cache_max sig a c.meta_cache },
        )

    -- `_build_static_graph`, from the graph that is parsed, none where there is none.
    unfoldable pub build_static_graph :
        Option (StaticGraph P)
        → Option ModelKey
        → Bool
        → Caches H P
        → Option (StaticGraph P) × Caches H P
    unfolding analysed inject_predicted_heat graph_signature get
    build_static_graph none model available c = (none, c)
    build_static_graph (some graph) model available c =
        let sig = graph_signature hash_ids graph in
        let injected = inject_predicted_heat model available graph c in
        let built = analysed sig (get sig injected.1.meta_cache) injected in (some built.0, built.1)

    -- The caches after some builds, each of what was parsed, with a model file and the package there or not.
    unfoldable pub caches_after :
        List (Option (StaticGraph P) × Option ModelKey × Bool) → Caches H P → Caches H P
    unfolding build_static_graph
    caches_after [] c = c
    caches_after ((parsed, model, available) ∷ builds) c =
        caches_after builds (build_static_graph parsed model available c).1

abbrev pub no_caches : {H P : Type 0} → Caches H P
no_caches = record { cache = []; gate_warned = false; broken_models = []; meta_cache = [] }
