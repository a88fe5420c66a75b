-- ===== src/Base/Dict.antt =====
-- Python's dict: entries in insertion order, no key twice. An assignment to a key that is there
-- keeps its place.
use mathlib.Core.Path.{◌≡◌, refl, subst, ap, sym, ◌∙◌}
use mathlib.Core.Logic.{ite, if_pos, if_neg}
use mathlib.Core.List.{List, [], ◌∷◌}
use mathlib.Core.Option.{Option, none, some}
use native.Mathlib.Omega.{arith}
use native.Mathlib.Decide.{ℕ_discrete}
use Prim.Native.Nat.{ℕ}

-- Keys that `==` decides.
pub record Keyed {ℓ} (K : Type ℓ) : Type ℓ where
  pub same : Discrete K

pub some_inj {ℓ} : {A : Type ℓ} {a b : A} → some a ≡ some b → a ≡ b
some_inj h = cc

-- What holds of both branches holds of the choice.
pub ite_elim {ℓ κ μ} :
    {Q : Type ℓ} {A : Type κ} (C : A → Type μ) (q : Dec Q) (a b : A) → C a → C b → C (ite q a b)
ite_elim C (yes p) a b h k = h
ite_elim C (no p) a b h k = k

instance abbrev pub number_key : Keyed ℕ
number_key = record { same = ℕ_discrete }

-- A pair is a key where its parts are.
module _ {ℓ} {A B : Type ℓ} where
  abbrev pair_same :
      {a c : A} {b d : B} → Dec (a ≡ c) → Dec (b ≡ d) → Dec (◌≡◌ {A = A × B} (a, b) (c, d))
  pair_same (yes p) (yes q) = yes (λ i. (p i, q i))
  pair_same (yes p) (no q) = no (λ e. q (ap (λ x. x.1) e))
  pair_same (no p) q = no (λ e. p (ap (λ x. x.0) e))

  module _ ⦃da : Keyed A⦄ ⦃db : Keyed B⦄ where
    instance abbrev pub pair_key : Keyed (A × B)
    pair_key = record { same = λ x y. pair_same (da.same x.0 y.0) (db.same x.1 y.1) }

-- A list is a key where its elements are.
module _ {ℓ} {A : Type ℓ} where
  abbrev cons_same :
      {a b : A} {xs ys : List A}
      → Dec (a ≡ b)
      → Dec (xs ≡ ys)
      → Dec (◌≡◌ {A = List A} (a ∷ xs) (b ∷ ys))
  cons_same (yes p) (yes q) = yes (λ i. p i ∷ q i)
  cons_same (yes p) (no q) = no (λ e. q (cc e))
  cons_same (no p) q = no (λ e. p (cc e))

  module _ ⦃d : Keyed A⦄ where
    unfoldable pub list_same : (xs ys : List A) → Dec (xs ≡ ys)
    list_same [] [] = yes refl
    list_same [] (y ∷ ys) = no (λ e. cc e)
    list_same (x ∷ xs) [] = no (λ e. cc e)
    list_same (x ∷ xs) (y ∷ ys) = cons_same (d.same x y) (list_same xs ys)

    instance abbrev pub list_key : Keyed (List A)
    list_key = record { same = list_same }

or_else_ite {ℓ κ} :
    {P : Type ℓ} {V : Type κ} (q : Dec P) (e v : V) (o : Option V)
    → elim (ite q (some v) o) [ none ↦ e | some w ↦ w ] ≡ ite q v (elim o [ none ↦ e | some w ↦ w ])
or_else_ite (yes p) e v o = refl
or_else_ite (no p) e v o = refl

module _ {ℓ} {K V : Type ℓ} ⦃d : Keyed K⦄ where
  -- `m.get(k)`
  unfoldable pub get : K → List (K × V) → Option V
  get k [] = none
  get k ((j, v) ∷ m) = ite (d.same j k) (some v) (get k m)

  -- `m[k] = v`
  unfoldable pub put : K → V → List (K × V) → List (K × V)
  put k v [] = (k, v) ∷ []
  put k v ((j, w) ∷ m) = ite (d.same j k) ((j, v) ∷ m) ((j, w) ∷ put k v m)

  -- `m.get(k, e)`
  abbrev pub get_default : K → V → List (K × V) → V
  get_default k e m = elim (get k m) [ none ↦ e | some v ↦ v ]

  pub get-put :
      (k j : K) (v : V) (m : List (K × V)) → get j (put k v m) ≡ ite (d.same k j) (some v) (get j m)
  unfolding get put
  get-put k j v [] = refl
  get-put k j v ((i, w) ∷ m) = ground (arith, get-put k j v m)

  pub get_default-put :
      (k j : K) (e v : V) (m : List (K × V))
      → get_default j e (put k v m) ≡ ite (d.same k j) v (get_default j e m)
  get_default-put k j e v m =
      rw (get-put k j v m, get_default) (or_else_ite (d.same k j) e v (get j m))

  -- A property of all values of a dict.
  abbrev pub Values {κ} : (V → Type κ) → List (K × V) → Type κ
  Values P [] = Unit
  Values P ((j, v) ∷ m) = P v × Values P m

  pub Values-get {κ} :
      (P : V → Type κ) (k : K) (v : V) (m : List (K × V)) → Values P m → get k m ≡ some v → P v
  unfolding get
  Values-get P k v [] h e = cc
  Values-get P k v ((j, w) ∷ m) h e =
      ite_elim (λ o. o ≡ some v → P v) (d.same j k) (some w) (get k m)
        (λ q. subst P (some_inj q) h.0) (Values-get P k v m h.1) e

  pub Values-put {κ} :
      (P : V → Type κ) (k : K) (v : V) (m : List (K × V)) → Values P m → P v → Values P (put k v m)
  unfolding put
  Values-put P k v [] h e = (e, tt)
  Values-put P k v ((j, w) ∷ m) h e =
      ite_elim (Values P) (d.same j k) ((j, v) ∷ m) ((j, w) ∷ put k v m) (e, h.1)
        (h.0, Values-put P k v m h.1 e)

  -- No key is there twice.
  abbrev pub Distinct : List (K × V) → Type ℓ
  Distinct [] = Unit
  Distinct ((j, v) ∷ m) = (get j m ≡ none) × Distinct m

  pub put-Distinct : (k : K) (v : V) (m : List (K × V)) → Distinct m → Distinct (put k v m)
  unfolding put get
  put-Distinct k v [] h = (refl, tt)
  put-Distinct k v ((j, w) ∷ m) h = elim (d.same j k) [
    | yes p ↦ rw (if_pos _ p) h
    | no p ↦ rw (if_neg _ p) (
      get-put k j v m ∙ (if_neg _ (λ q. p (sym q)) (some v) (get j m) ∙ h.0),
      put-Distinct k v m h.1,
    )
  ]

  -- `m.pop(k, None)`, less what it returns.
  unfoldable pub pop : K → List (K × V) → List (K × V)
  pop k [] = []
  pop k ((j, v) ∷ m) = ite (d.same j k) (pop k m) ((j, v) ∷ pop k m)

  pub get-pop : (k j : K) (m : List (K × V)) → get j (pop k m) ≡ ite (d.same k j) none (get j m)
  unfolding get pop
  get-pop k j [] = ground arith
  get-pop k j ((i, w) ∷ m) = ground (arith, get-pop k j m)

  pub get-put-same : (k : K) (v : V) (m : List (K × V)) → get k (put k v m) ≡ some v
  get-put-same k v m = get-put k k v m ∙ if_pos (d.same k k) refl (some v) (get k m)

  pub get-put-other : (k j : K) (v : V) (m : List (K × V)) → ¬ (j ≡ k) → get j (put k v m) ≡ get j m
  get-put-other k j v m h =
      get-put k j v m ∙ if_neg (d.same k j) (λ q. h (sym q)) (some v) (get j m)

  pub get-pop-other : (k j : K) (m : List (K × V)) → ¬ (j ≡ k) → get j (pop k m) ≡ get j m
  get-pop-other k j m h = get-pop k j m ∙ if_neg (d.same k j) (λ q. h (sym q)) none (get j m)
