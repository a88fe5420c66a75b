-- ===== src/Server/Pushed.antt =====
-- What packages/agent/src/grackle/server.py pushes of a graph, whatever its caches hold.
use grackle.Base.{
  ◌≤◌, String, List, [], ◌∷◌, Option, none, some, Bool, length, All, map, ◌≡◌, refl, ap, sym, subst,
  ◌⊎◌, inl, inr, arith,
}
use grackle.Base.Dict.{Keyed, get}
use mathlib.Core.List.{Perm}
use mathlib.Core.List.Perm
use grackle.Graph.{Edge, compute_hub_score}
use grackle.Graph.Entries.{KindedEdge, ends_of, compute_cycles}
use grackle.Graph.Shuffled.{compute_hub_score-Perm}
use grackle.Server.Signature.{
  StaticGraph, Triple, NodePart, triple_of, triple_le, part_of, ids_of, graph_signature,
  topology_of, features_of, predicted_heat_signature, signature_key,
}
use grackle.Server.Topology.{SameTopology, graph_signature_iff, Perm-sorted}
use grackle.Server.Push.{
  meta_cache_max, ModelKey, Analysis, Caches, with_analysis, analysis_of, inject_predicted_heat,
  analysed, build_static_graph, caches_after, no_caches, predicted_cache_max,
}
use grackle.Server.Sound.{
  get-All, cache_bounded-All, IsSound, IsAnalysis, HeatOf, Injected, inject-Injected,
}

map-ends :
    (edges : List KindedEdge) → map (λ t. (t.0, t.1.0)) (map triple_of edges) ≡ map ends_of edges
map-ends [] = refl
map-ends (e ∷ edges) = ap (λ r. ends_of e ∷ r) (map-ends edges)

ends-Perm :
    (es fs : List KindedEdge)
    → Perm (map triple_of es) (map triple_of fs)
    → Perm (map ends_of es) (map ends_of fs)
ends-Perm es fs p =
    let f : Triple → Edge = λ t. (t.0, t.1.0) in
    subst (λ xs. Perm xs (map ends_of fs)) (map-ends es)
      (subst (λ ys. Perm (map f (map triple_of es)) ys) (map-ends fs) (Perm.map f p))

module _ {P : Type 0} (predict : StaticGraph P → ModelKey → Option P) where
  -- The prediction of a pushed graph: what was parsed, or what the model file predicts of a graph with the
  -- same nodes in the same order, by all that the features read, and the same edges in some order.
  abbrev pub IsHeat : Option ModelKey → StaticGraph P → Option P → Type 0
  IsHeat model g o =
      (o ≡ g.metadata.predicted_heat)
      ⊎ ((key : ModelKey) × (p : P) × (h : StaticGraph P) × (model ≡ some key)
          × (map part_of h.nodes ≡ map part_of g.nodes)
          × Perm (map triple_of h.edges) (map triple_of g.edges)
          × (predict h key ≡ some p)
          × (o ≡ some p))

  -- What a build pushes of a graph.
  abbrev pub IsPushed : Option ModelKey → StaticGraph P → StaticGraph P → Type 0
  IsPushed model g g' =
      (g'.nodes ≡ g.nodes)
      × (g'.edges ≡ g.edges)
      × (g'.metadata.hub_score ≡ some (compute_hub_score (ids_of g.nodes) (map ends_of g.edges)))
      × ((h : StaticGraph P) × SameTopology h g
          × (g'.metadata.cycles ≡ some (compute_cycles (ids_of h.nodes) h.edges)))
      × IsHeat model g g'.metadata.predicted_heat

module _ {H P : Type 0} ⦃d : Keyed H⦄ (hash_ids : List String × List Triple → H)
    (hash_parts : List NodePart × List Triple → H) (predict : StaticGraph P → ModelKey → Option P)
    (G : StaticGraph P → Type 0)
    (topologies_apart : (g h : StaticGraph P)
      → G g
      → G h
      → hash_ids (topology_of g) ≡ hash_ids (topology_of h)
      → topology_of g ≡ topology_of h)
    (features_apart : (g h : StaticGraph P)
      → G g
      → G h
      → hash_parts (features_of g) ≡ hash_parts (features_of h)
      → features_of g ≡ features_of h) where
  -- The analysis of a graph, its cycles perhaps in the order of another graph with its nodes and edges.
  abbrev HasAnalysis : StaticGraph P → Analysis → Type 0
  HasAnalysis g a =
      (a.hub_score ≡ compute_hub_score (ids_of g.nodes) (map ends_of g.edges))
      × ((h : StaticGraph P) × SameTopology h g
          × (a.cycles ≡ compute_cycles (ids_of h.nodes) h.edges))

  cached_analysis : (g h : StaticGraph P) → SameTopology h g → HasAnalysis g (analysis_of h)
  unfolding analysis_of
  cached_analysis g h (p, q) = (
    compute_hub_score-Perm (ids_of h.nodes) (ids_of g.nodes) (map ends_of h.edges)
        (map ends_of g.edges) p (ends-Perm h.edges g.edges q),
    (h, (p, q), refl),
  )

  analysis-HeatOf :
      (model : Option ModelKey) (g g' : StaticGraph P)
      → HeatOf hash_ids hash_parts predict G model g g'
      → analysis_of g' ≡ analysis_of g
  unfolding analysis_of
  analysis-HeatOf model g g' (inl e) = ap analysis_of e
  analysis-HeatOf model g g' (inr (key, p, h, i, m, s, f, e)) = ap analysis_of e

  with_analysis-IsPushed :
      (model : Option ModelKey) (g g1 : StaticGraph P) (a : Analysis)
      → G g
      → HasAnalysis g a
      → HeatOf hash_ids hash_parts predict G model g g1
      → IsPushed predict model g (with_analysis a g1)
  unfolding predicted_heat_signature features_of
  with_analysis-IsPushed model g g1 a i (hub, (h, same, cyc)) (inl e) = (
    ap (λ x. x.nodes) e,
    ap (λ x. x.edges) e,
    ap some hub,
    (h, same, ap some cyc),
    inl (ap (λ x. x.metadata.predicted_heat) e),
  )
  with_analysis-IsPushed model g g1 a i (hub, (h, same, cyc)) (inr (key, p, k, j, m, s, f, e)) =
      let parts = features_apart k g j i s in
      (
        ap (λ x. x.nodes) e,
        ap (λ x. x.edges) e,
        ap some hub,
        (h, same, ap some cyc),
        inr (
          key,
          p,
          k,
          m,
          ap (λ x. x.0) parts,
          Perm-sorted triple_le (map triple_of k.edges) (map triple_of g.edges)
              (ap (λ x. x.1) parts),
          f,
          ap (λ x. x.metadata.predicted_heat) e,
        ),
      )

  -- A sound state of the caches after a build, and what is pushed.
  abbrev pub Built : Option ModelKey → StaticGraph P → StaticGraph P × Caches H P → Type 0
  Built model g r = IsPushed predict model g r.0 × IsSound hash_ids hash_parts predict G r.1

  analysed-Built :
      (model : Option ModelKey) (g : StaticGraph P) (r : StaticGraph P × Caches H P)
      → G g
      → Injected hash_ids hash_parts predict G model g r
      → (o : Option Analysis) → get (graph_signature hash_ids g) r.1.meta_cache ≡ o
      → Built model g (analysed hash_ids hash_parts predict (graph_signature hash_ids g) o r)
  unfolding analysed
  analysed-Built model g (g1, c) i (heat, sound) none e =
      let same = analysis-HeatOf model g g1 heat in
      (
        with_analysis-IsPushed model g g1 (analysis_of g1) i
            (subst (HasAnalysis g) (sym same) (cached_analysis g g (Perm.refl _, Perm.refl _)))
            heat,
        (
          cache_bounded-All (IsAnalysis hash_ids hash_parts predict G) meta_cache_max
              (graph_signature hash_ids g) (analysis_of g1) c.meta_cache (g, i, refl, same)
              sound.0.0,
          sound.1,
        ),
      )
  analysed-Built model g (g1, c) i (heat, sound) (some a) e =
      let (h, j, s, f) =
        get-All (IsAnalysis hash_ids hash_parts predict G) (graph_signature hash_ids g) a
          c.meta_cache sound.0.0 e in
      (
        with_analysis-IsPushed model g g1 a i
            (subst (HasAnalysis g) (sym f) (
              cached_analysis g h
                ((graph_signature_iff hash_ids h g (topologies_apart h g j i)).0 s)))
            heat,
        sound,
      )

  build-Built :
      (model : Option ModelKey) (available : Bool) (g : StaticGraph P) (c : Caches H P)
      → G g
      → IsSound hash_ids hash_parts predict G c
      → (g' : StaticGraph P) × (c' : Caches H P) × (build_static_graph hash_ids hash_parts predict
            (some g)
            model
            available
            c
          ≡ (some g', c'))
        × Built model g (g', c')
  unfolding build_static_graph
  build-Built model available g c i h =
      let r = inject_predicted_heat hash_ids hash_parts predict model available g c in
      let o = get (graph_signature hash_ids g) r.1.meta_cache in
      let b = analysed hash_ids hash_parts predict (graph_signature hash_ids g) o r in
      (
        b.0,
        b.1,
        refl,
        analysed-Built model g r i
            (inject-Injected hash_ids hash_parts predict G model available g c i h) o refl,
      )

  abbrev pub IsOf : Option (StaticGraph P) → Type 0
  IsOf none = Unit
  IsOf (some g) = G g

  caches_after-IsSound :
      (builds : List (Option (StaticGraph P) × Option ModelKey × Bool)) (c : Caches H P)
      → All (λ b. IsOf b.0) builds
      → IsSound hash_ids hash_parts predict G c
      → IsSound hash_ids hash_parts predict G (caches_after hash_ids hash_parts predict builds c)
  unfolding caches_after build_static_graph
  caches_after-IsSound [] c i h = h
  caches_after-IsSound ((none, model, available) ∷ builds) c i h =
      caches_after-IsSound builds c i.1 h
  caches_after-IsSound ((some g, model, available) ∷ builds) c i h =
      let r = inject_predicted_heat hash_ids hash_parts predict model available g c in
      caches_after-IsSound builds _ i.1
        (analysed-Built model g r i.0
          (inject-Injected hash_ids hash_parts predict G model available g c i.0 h)
          (get (graph_signature hash_ids g) r.1.meta_cache) refl).1

  -- Whatever was built before, if the hashes tell apart what they are given of the graphs that were parsed: a graph
  -- is pushed with its own nodes, edges and hub scores, with the cycles of a graph of the same node ids and
  -- edges in some order, and with the prediction it was parsed with or one of the model file for the same nodes
  -- and edges. The caches have at most 64 and 16 entries.
  pub build_static_graph-IsPushed :
      (builds : List (Option (StaticGraph P) × Option ModelKey × Bool)) (model : Option ModelKey)
      (available : Bool) (g : StaticGraph P)
      → All (λ b. IsOf b.0) builds
      → G g
      → (g' : StaticGraph P) × (c' : Caches H P) × (build_static_graph hash_ids hash_parts predict
            (some g)
            model
            available
            (caches_after hash_ids hash_parts predict builds no_caches)
          ≡ (some g', c'))
        × IsPushed predict model g g'
        × (length c'.meta_cache ≤ meta_cache_max)
        × (length c'.cache ≤ predicted_cache_max)
  build_static_graph-IsPushed builds model available g all i =
      let (g', c', e, (pushed, sound)) =
        build-Built model available g (caches_after hash_ids hash_parts predict builds no_caches) i
          (caches_after-IsSound builds no_caches all ((tt, omega arith), (tt, omega arith))) in
      (g', c', e, pushed, sound.0.1, sound.1.1)
