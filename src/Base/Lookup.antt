-- ===== src/Base/Lookup.antt =====
-- Two dicts that answer every lookup alike have the same entries.
use mathlib.Core.Path.{subst, ◌≡◌, refl, sym, ap, ◌∙◌}
use mathlib.Core.Logic.{ite, if_pos}
use mathlib.Core.List.{List, [], ◌∷◌, Perm}
use mathlib.Core.List.Perm
use mathlib.Core.Option.{none, some}
use grackle.Base.Dict.{Keyed, get, pop, get-pop, Distinct, ite_elim, some_inj}

some≢none {ℓ} : {A : Type ℓ} {a : A} → ¬ (some a ≡ none)
some≢none e = cc

module _ {ℓ} {K V : Type ℓ} ⦃d : Keyed K⦄ where
  pop-absent : (k : K) (m : List (K × V)) → get k m ≡ none → pop k m ≡ m
  unfolding get pop
  pop-absent k [] e = refl
  pop-absent k ((j, v) ∷ m) e =
      elim (d.same j k)
          as (λ q.
            ite q (some v) (get k m) ≡ none → ite q (pop k m) ((j, v) ∷ pop k m) ≡ (j, v) ∷ m) [
              | yes p ↦ λ e. cc
              | no p ↦ λ e. ap (λ r. (j, v) ∷ r) (pop-absent k m e)
            ]
        e

  pop-Distinct : (k : K) (m : List (K × V)) → Distinct m → Distinct (pop k m)
  unfolding pop
  pop-Distinct k [] h = tt
  pop-Distinct k ((j, v) ∷ m) h =
      ite_elim Distinct (d.same j k) (pop k m) ((j, v) ∷ pop k m) (pop-Distinct k m h.1) (
        get-pop k j m ∙ ite_elim (λ o. o ≡ none) (d.same k j) none (get j m) refl h.0,
        pop-Distinct k m h.1,
      )

  -- An entry can be taken out.
  pull :
      (k : K) (v : V) (m : List (K × V)) → Distinct m → get k m ≡ some v → Perm m ((k, v) ∷ pop k m)
  unfolding get pop
  pull k v [] h e = cc
  pull k v ((j, w) ∷ m) h e =
      elim (d.same j k)
          as (λ q.
            ite q (some w) (get k m) ≡ some v
            → Perm ((j, w) ∷ m) ((k, v) ∷ ite q (pop k m) ((j, w) ∷ pop k m))) [
              | yes p ↦ λ f.
                  let gone : pop k m ≡ m = pop-absent k m (ap (λ x. get x m) (sym p) ∙ h.0) in
                  subst (λ r. Perm ((j, w) ∷ m) ((k, v) ∷ r)) (sym gone)
                    (Perm.cons' (λ i. (p i, some_inj f i)) (Perm.refl m))
              | no p ↦ λ f.
                  Perm.trans (Perm.cons (j, w) (pull k v m h.1 f))
                    (Perm.swap (k, v) (j, w) (pop k m))
            ]
        e

  pub get-Perm :
      (m n : List (K × V)) → Distinct m → Distinct n → ((k : K) → get k m ≡ get k n) → Perm m n
  unfolding get
  get-Perm [] [] h l e = Perm.refl []
  get-Perm [] ((k, v) ∷ n) h l e =
      absurd (some≢none (sym (e k ∙ if_pos (d.same k k) refl (some v) (get k n))))
  get-Perm ((k, v) ∷ m) n h l e =
      let here : get k n ≡ some v = sym (e k) ∙ if_pos (d.same k k) refl (some v) (get k m) in
      let rest : (j : K) → get j m ≡ get j (pop k n) = λ j.
        elim (d.same k j)
            as (λ q. ite q (some v) (get j m) ≡ get j n → get j m ≡ ite q none (get j n)) [
              | yes p ↦ λ f. ap (λ x. get x m) (sym p) ∙ h.0
              | no p ↦ λ f. f
            ]
          (e j)
        ∙ sym (get-pop k j n) in
      Perm.trans (Perm.cons (k, v) (get-Perm m (pop k n) h.1 (pop-Distinct k n l) rest))
        (Perm.symm (pull k v n l here))
