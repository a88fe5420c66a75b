-- ===== src/Resolution/Claims.antt =====
-- The index by line answers with the one node that claims a line, and with none where two do.
use grackle.Base.{
  sym, inr, inl, ◌∙◌, Bool-cases, ap, arith, ℕ, String, Option, none, some, List, [], ◌∷◌, Bool,
  true, false, ite, if◌then◌else◌, ◌≡◌, refl,
}
use grackle.Base.Dict.{get-put, put, Keyed, number_key, pair_key, get}
use grackle.Base.Text.{string_key, String_discrete, same_text}
use grackle.Resolution.Resolve.{symbol_at}
use grackle.Resolution.Index.{
  no_indexes, index_graph, add_nodes, GraphNode, Indexes, Wanted, is_symbol, index_unique_at,
  index_unique, add_line, add_name, add_node,
}

-- The key that a node claims: a function or method with a line.
abbrev pub claim_of : GraphNode → Option (String × ℕ)
claim_of node =
    if same_text node.kind "file"
    then none
    else if is_symbol node.kind
    then elim node.line [ none ↦ none | some line ↦ some (node.path, line) ]
    else none

-- Whether a node claims the key.
abbrev pub claims : String × ℕ → Option (String × ℕ) → Bool
claims key none = false
claims key (some other) = ite (pair_key.same other key) true false

-- The ids of the nodes that claim a key.
abbrev pub claimants : String × ℕ → List GraphNode → List String
claimants key [] = []
claimants key (node ∷ rest) =
    if claims key (claim_of node) then node.id ∷ claimants key rest else claimants key rest

-- The id that all claimants have, if there is one.
abbrev pub agreed : String → List String → Option String
agreed x [] = some x
agreed x (y ∷ ys) = ite (String_discrete x y) (agreed x ys) none

abbrev pub sole : List String → Option String
sole [] = none
sole (x ∷ xs) = agreed x xs

-- The value of a key after more claims.
abbrev absorb : Option (Option String) → List String → Option (Option String)
absorb o [] = o
absorb o (x ∷ xs) = absorb (index_unique_at o x) xs

ite-cong {ℓ κ} :
    {Q : Type ℓ} {A : Type κ} (q : Dec Q) (a b c : A) → (Q → a ≡ b) → ite q a c ≡ ite q b c
ite-cong (yes p) a b c h = h p
ite-cong (no p) a b c h = refl

index_unique_at-some :
    (o : Option (Option String)) (id : String)
    → (v : Option String) × (index_unique_at o id ≡ some v)
unfolding index_unique_at
index_unique_at-some none id = (some id, refl)
index_unique_at-some (some none) id = (none, refl)
index_unique_at-some (some (some other)) id = elim (String_discrete other id) [
  | yes p ↦ (some other, ground arith)
  | no p ↦ (none, ground arith)
]

module _ {K : Type 0} ⦃d : Keyed K⦄ where
  index_unique-put :
      (key : K) (id : String) (m : List (K × Option String)) (v : Option String)
      → index_unique_at (get key m) id ≡ some v
      → index_unique key id m ≡ put key v m
  unfolding index_unique
  index_unique-put key id m v e = rw (e, index_unique) refl

  get-index_unique :
      (key other : K) (id : String) (m : List (K × Option String))
      → get key (index_unique other id m)
        ≡ ite (d.same other key) (index_unique_at (get key m) id) (get key m)
  get-index_unique key other id m =
      let (v, e) = index_unique_at-some (get other m) id in
      ap (get key) (index_unique-put other id m v e)
      ∙ get-put other key v m
      ∙ ite-cong (d.same other key) (some v) (index_unique_at (get key m) id) (get key m)
          (λ p. sym e ∙ ap (λ k. index_unique_at (get k m) id) p)

add_name-sym_index :
    (wanted : Wanted) (node : GraphNode) (name : Option String) (t : Indexes)
    → (add_name wanted node name t).sym_index ≡ t.sym_index
unfolding add_name
add_name-sym_index wanted node none t = refl
add_name-sym_index wanted node (some String.[]) t = refl
add_name-sym_index wanted node (some (String.◌∷◌ c s)) t = elim (Bool-cases wanted.name_index) [
  | inl e ↦ rw e refl
  | inr e ↦ rw e refl
]

claimed :
    Option (String × ℕ)
    → String
    → List ((String × ℕ) × Option String)
    → List ((String × ℕ) × Option String)
claimed none id m = m
claimed (some key) id m = index_unique key id m

add_node-claimed :
    (wanted : Wanted) (node : GraphNode) (t : Indexes)
    → (add_node wanted node t).sym_index ≡ claimed (claim_of node) node.id t.sym_index
unfolding add_node add_line claimed
add_node-claimed wanted node t =
    ground (arith, add_name-sym_index wanted node node.name (add_line wanted node node.line t))

absorb-ambiguous : (xs : List String) → absorb (some none) xs ≡ some none
unfolding index_unique_at
absorb-ambiguous [] = refl
absorb-ambiguous (x ∷ xs) = absorb-ambiguous xs

absorb-agreed : (x : String) (xs : List String) → absorb (some (some x)) xs ≡ some (agreed x xs)
unfolding index_unique_at
absorb-agreed x [] = refl
absorb-agreed x (y ∷ ys) = ground (arith, absorb-agreed x ys, absorb-ambiguous ys)

absorb-sole : (xs : List String) → (elim (absorb none xs) [ none ↦ none | some v ↦ v ]) ≡ sole xs
unfolding index_unique_at
absorb-sole [] = refl
absorb-sole (x ∷ xs) = rw absorb-agreed refl

claimed-ite {ℓ} :
    {Q : Type ℓ} (q : Dec Q) (o : Option (Option String)) (id : String) (rest : List String)
    → absorb (ite q (index_unique_at o id) o) rest
      ≡ absorb o (if ite q true false then id ∷ rest else rest)
claimed-ite (yes p) o id rest = refl
claimed-ite (no p) o id rest = refl

claimed-get :
    (key : String × ℕ) (c : Option (String × ℕ)) (id : String)
    (m : List ((String × ℕ) × Option String)) (rest : List String)
    → absorb (get key (claimed c id m)) rest
      ≡ absorb (get key m) (if claims key c then id ∷ rest else rest)
unfolding claimed
claimed-get key none id m rest = refl
claimed-get key (some other) id m rest =
    ap (λ o. absorb o rest) (get-index_unique key other id m)
    ∙ claimed-ite (pair_key.same other key) (get key m) id rest

add_nodes-absorb :
    (wanted : Wanted) (key : String × ℕ) (nodes : List GraphNode) (t : Indexes)
    → get key (add_nodes wanted nodes t).sym_index
      ≡ absorb (get key t.sym_index) (claimants key nodes)
unfolding add_nodes
add_nodes-absorb wanted key [] t = refl
add_nodes-absorb wanted key (node ∷ rest) t =
    add_nodes-absorb wanted key rest (add_node wanted node t)
    ∙ ap (λ m. absorb (get key m) (claimants key rest)) (add_node-claimed wanted node t)
    ∙ claimed-get key (claim_of node) node.id t.sym_index (claimants key rest)

-- The lookup by path and line: it gives the id of the functions and methods of the graph that
-- start there if there is one and they all have it, and none otherwise.
pub symbol_at-sole :
    (wanted : Wanted) (nodes : List GraphNode) (posix : String) (line : ℕ)
    → symbol_at (index_graph wanted nodes) posix line ≡ sole (claimants (posix, line) nodes)
unfolding symbol_at index_graph get
symbol_at-sole wanted nodes posix line =
    ap (λ o. elim o [ none ↦ none | some v ↦ v ])
      (add_nodes-absorb wanted (posix, line) nodes no_indexes)
    ∙ absorb-sole (claimants (posix, line) nodes)
