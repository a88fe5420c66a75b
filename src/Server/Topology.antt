-- ===== src/Server/Topology.antt =====
-- When two graphs have one signature in packages/agent/src/grackle/server.py.
use grackle.Base.Dict.{pair_key}
use grackle.Base.{
  [], ◌∷◌, String, List, Bool, true, map, length, ◌≡◌, refl, ap, sym, subst, ◌↔◌, arith,
}
use grackle.Base.Sort.{sorted, sorted-perm, IsOrder}
use grackle.Base.Sorted.{sorted-Perm, length-Perm}
use grackle.Base.Text.{text_le, text_le_total, text_le_trans, text_le_antisym, string_key}
use text.Mathlib.TextEquality.{eq_iff}
use mathlib.Core.List.{Perm}
use mathlib.Core.List.Perm
use grackle.Server.Signature.{
  StaticGraph, Triple, triple_of, triple_le, text_then, edge_multiset, ids_of, topology_of,
  graph_signature,
}

text_le-IsOrder : IsOrder text_le
text_le-IsOrder = record { total = text_le_total; trans = text_le_trans }

module _ {B : Type 0} (le : B → B → Bool) where
  text_then-IsOrder : IsOrder le → IsOrder (text_then le)
  unfolding text_then
  text_then-IsOrder o = record {
    total =
        λ (s, x) (t, y) h. ground (arith, o.total x y, text_le_total s t, eq_iff s t, eq_iff t s);
    trans = λ (s, x) (t, y) (u, z) h k. grind (
      arith,
      o.trans x y z,
      text_le_trans s t u,
      text_le_antisym s t,
      eq_iff s t,
      eq_iff t u,
      eq_iff s u,
    );
  }

  text_then_antisym :
      ((x y : B) → le x y ≡ true → le y x ≡ true → x ≡ y)
      → (a b : String × B) → text_then le a b ≡ true
      → text_then le b a ≡ true
      → a ≡ b
  unfolding text_then
  text_then_antisym anti (s, x) (t, y) h k =
      grind (arith, anti x y, text_le_antisym s t, eq_iff s t, eq_iff t s)

-- Two lists that sort to the same one have the same elements.
pub Perm-sorted {ℓ} :
    {A : Type ℓ} (le : A → A → Bool) (xs ys : List A) → sorted le xs ≡ sorted le ys → Perm xs ys
Perm-sorted le xs ys e =
    Perm.trans (Perm.symm (sorted-perm le xs))
      (subst (λ zs. Perm zs ys) (sym e) (sorted-perm le ys))

length-map {ℓ} : {A B : Type ℓ} (f : A → B) (xs : List A) → length (map f xs) ≡ length xs
length-map f [] = refl
length-map f (x ∷ xs) = omega (arith, length-map f xs)

map-length :
    {A B : Type 0} (f : A → B) (xs ys : List A)
    → length (map f xs) ≡ length (map f ys)
    → length xs ≡ length ys
map-length f xs ys e = omega (arith, e, length-map f xs, length-map f ys)

triple_le-IsOrder : IsOrder triple_le
unfolding triple_le
triple_le-IsOrder =
    text_then-IsOrder (text_then text_le) (text_then-IsOrder text_le text_le-IsOrder)

triple_le_antisym : (a b : Triple) → triple_le a b ≡ true → triple_le b a ≡ true → a ≡ b
unfolding triple_le
triple_le_antisym =
    text_then_antisym (text_then text_le) (text_then_antisym text_le text_le_antisym)

-- The same node ids and the same edges with their kinds, each as often, in any order.
module _ {P : Type 0} where
  abbrev pub SameTopology : StaticGraph P → StaticGraph P → Type 0
  SameTopology g h =
      Perm (ids_of g.nodes) (ids_of h.nodes) × Perm (map triple_of g.edges) (map triple_of h.edges)

module _ {H P : Type 0} (hash_of : List String × List Triple → H) (g h : StaticGraph P) where
  -- Two graphs of which the hash tells apart what it is given have one signature exactly if they have the same node
  -- ids and the same edges with their kinds, each as often, in any order.
  pub graph_signature_iff :
      (hash_of (topology_of g) ≡ hash_of (topology_of h) → topology_of g ≡ topology_of h)
      → (graph_signature hash_of g ≡ graph_signature hash_of h) ↔ SameTopology g h
  unfolding graph_signature topology_of edge_multiset
  graph_signature_iff apart = (
    λ e.
        let same = apart (ap (λ s. s.1.1) e) in
        (
          Perm-sorted text_le (ids_of g.nodes) (ids_of h.nodes) (ap (λ a. a.0) same),
          Perm-sorted triple_le (map triple_of g.edges) (map triple_of h.edges)
              (ap (λ a. a.1) same),
        ),
    λ (p, q).
        let n = map-length (λ n. n.id) g.nodes h.nodes (length-Perm p) in
        let m = map-length triple_of g.edges h.edges (length-Perm q) in
        let ids = sorted-Perm text_le text_le-IsOrder text_le_antisym p in
        let triples = sorted-Perm triple_le triple_le-IsOrder triple_le_antisym q in
        λ i. (n i, (m i, hash_of (ids i, triples i))),
  )
