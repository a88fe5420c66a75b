-- ===== src/Coverage/Sums.antt =====
-- What the deltas of one poll add up to, and what the counts of a poll keep.
use grackle.Base.{
  ℕ, ◌+◌, ◌-◌, String, List, [], ◌∷◌, ◌++◌, Option, none, some, true, false, ◌≡◌, refl, ite, arith,
  Bool-cases, Option-cases, inl, inr, is_some, sym, ap, ◌∙◌, subst,
}
use mathlib.Core.Logic.{if_pos, if_neg}
use grackle.Base.Int.{ℤ, pos, pos_part, neg_part, ltb_ℤ, int_key}
use grackle.Base.Dict.{get, put, get-put, get_default, pair_key, Distinct, put-Distinct, ite_elim}
use grackle.Base.Text.{string_key}
use grackle.Base.Result.{Result, ok, raise, ◌>>=◌}
use grackle.Coverage.Deltas.{
  CoverageKey, CoverageCounts, Meta, CoverageDelta, minus, delta_entry, deltas_of,
}

abbrev pub delta_key : CoverageDelta → CoverageKey
delta_key d = (d.script_id, d.start_offset)

-- What the deltas of a key add up to.
unfoldable pub sum_at : CoverageKey → List CoverageDelta → ℕ
sum_at key [] = 0
sum_at key (d ∷ ds) = ite (pair_key.same (delta_key d) key) (pos_part d.delta) 0 + sum_at key ds

pub sum_at-append :
    (key : CoverageKey) (xs ys : List CoverageDelta)
    → sum_at key (xs ++ ys) ≡ sum_at key xs + sum_at key ys
unfolding sum_at
sum_at-append key [] ys = omega arith
sum_at-append key (d ∷ xs) ys = omega (arith, sum_at-append key xs ys)

-- a - b, and 0 below b.
abbrev pub gain : ℤ → ℤ → ℕ
gain a b = pos_part a + neg_part b - (pos_part b + neg_part a)

abbrev pub gain_of : Option ℤ → ℤ → ℕ
gain_of none b = 0
gain_of (some c) b = gain c b

-- Every key that is counted has its url and name.
abbrev pub Covered : CoverageCounts → Meta → Type 0
Covered counts meta =
    (k : CoverageKey) → is_some (get k counts) ≡ true → is_some (get k meta) ≡ true

delta_entry_lem :
    (key : CoverageKey) (delta : ℤ) (meta : Meta)
    → is_some (get key meta) ≡ true
    → (d : CoverageDelta) × (delta_entry key delta meta ≡ ok d)
      × (delta_key d ≡ key)
      × (d.delta ≡ delta)
unfolding delta_entry
delta_entry_lem (script_id, start_offset) delta meta h =
    elim (Option-cases (get (script_id, start_offset) meta)) [
      | inl e ↦ cc (ap is_some e)
      | inr ((url, name), e) ↦ (
        record {
          script_id = script_id;
          url = url;
          function_name = name;
          start_offset = start_offset;
          delta = delta;
        },
        rw (e, delta_entry) refl,
        refl,
        refl,
      )
    ]

minus-gain : (a b : ℤ) → ltb_ℤ b a ≡ true → pos_part (minus a b) ≡ gain a b
unfolding minus
minus-gain a b h = ground arith

no_gain : (a b : ℤ) → ltb_ℤ b a ≡ false → gain a b ≡ 0
no_gain a b h = ground arith

Covered-tail :
    (key : CoverageKey) (count : ℤ) (counts : CoverageCounts) (meta : Meta)
    → Covered ((key, count) ∷ counts) meta
    → Covered counts meta
unfolding get
Covered-tail key count counts meta c k h =
    c k (ite_elim (λ o. is_some o ≡ true) (pair_key.same key k) (some count) (get k counts) refl h)

Covered-head :
    (key : CoverageKey) (count : ℤ) (counts : CoverageCounts) (meta : Meta)
    → Covered ((key, count) ∷ counts) meta
    → is_some (get key meta) ≡ true
unfolding get
Covered-head key count counts meta c =
    c key (ap is_some (if_pos (pair_key.same key key) refl (some count) (get key counts)))

sum_at-yes :
    (k : CoverageKey) (d : CoverageDelta) (ds : List CoverageDelta)
    → delta_key d ≡ k
    → sum_at k (d ∷ ds) ≡ pos_part d.delta + sum_at k ds
unfolding sum_at
sum_at-yes k d ds e =
    ap (λ n. n + sum_at k ds) (if_pos (pair_key.same (delta_key d) k) e (pos_part d.delta) 0)

sum_at-no :
    (k : CoverageKey) (d : CoverageDelta) (ds : List CoverageDelta)
    → ¬ (delta_key d ≡ k)
    → sum_at k (d ∷ ds) ≡ sum_at k ds
unfolding sum_at
sum_at-no k d ds e =
    ap (λ n. n + sum_at k ds) (if_neg (pair_key.same (delta_key d) k) e (pos_part d.delta) 0)
    ∙ omega arith

-- The sum at a key where the first count gains, and where it does not.
module _ (key k : CoverageKey) (count : ℤ) (counts prev : CoverageCounts)
    (ds : List CoverageDelta) where
  module _ (fresh : get key counts ≡ none) where
    module _ (ih : sum_at k ds ≡ gain_of (get k counts) (get_default k (pos 0) prev)) where
      sum-rest : key ≡ k → sum_at k ds ≡ 0
      sum-rest p =
          ih
          ∙ ap (λ o. gain_of o (get_default k (pos 0) prev))
              (subst (λ x. get x counts ≡ none) p fresh)

      sum-skip :
          gain count (get_default key (pos 0) prev) ≡ 0
          → sum_at k ds ≡ gain_of (get k ((key, count) ∷ counts)) (get_default k (pos 0) prev)
      unfolding get
      sum-skip z = elim (pair_key.same key k) [
        | yes p ↦
            rw (if_pos _ p)
              (sum-rest p ∙ sym (subst (λ x. gain count (get_default x (pos 0) prev) ≡ 0) p z))
        | no p ↦ rw (if_neg _ p) ih
      ]

      sum-take :
          (d : CoverageDelta)
          → delta_key d ≡ key
          → pos_part d.delta ≡ gain count (get_default key (pos 0) prev)
          → sum_at k (d ∷ ds) ≡ gain_of (get k ((key, count) ∷ counts)) (get_default k (pos 0) prev)
      unfolding get
      sum-take d e z = elim (pair_key.same key k) [
        | yes p ↦
            let g : pos_part d.delta ≡ gain count (get_default k (pos 0) prev) =
              subst (λ x. pos_part d.delta ≡ gain count (get_default x (pos 0) prev)) p z in
            rw (if_pos _ p) (
              sum_at-yes k d ds (e ∙ p)
              ∙ (ap (λ n. pos_part d.delta + n) (sum-rest p) ∙ (omega arith ∙ g)))
        | no p ↦ rw (if_neg _ p) (sum_at-no k d ds (λ q. p (sym e ∙ q)) ∙ ih)
      ]

pub deltas_of_lem :
    (counts prev : CoverageCounts) (meta : Meta)
    → Distinct counts
    → Covered counts meta
    → (ds : List CoverageDelta) × (deltas_of counts prev meta ≡ ok ds)
      × ((key : CoverageKey)
          → sum_at key ds ≡ gain_of (get key counts) (get_default key (pos 0) prev))
unfolding deltas_of sum_at get
deltas_of_lem [] prev meta h c = ([], refl, λ key. refl)
deltas_of_lem ((key, count) ∷ counts) prev meta h c =
    let (ds, e, ih) = deltas_of_lem counts prev meta h.1 (Covered-tail key count counts meta c) in
    let before = get_default key (pos 0) prev in
    elim (Bool-cases (ltb_ℤ before count)) [
      | inl more ↦
          let (d, f, k, v) =
            delta_entry_lem key (minus count before) meta (Covered-head key count counts meta c) in
          (
            d ∷ ds,
            rw (more, f, e) refl,
            λ k'.
                sum-take key k' count counts prev ds h.0 (ih k') d k
                  (ap pos_part v ∙ minus-gain count before more),
          )
      | inr less ↦ (
        ds,
        rw less e,
        λ k'. sum-skip key k' count counts prev ds h.0 (ih k') (no_gain count before less),
      )
    ]

-- The keys of a poll are distinct, and each has its url and name.
abbrev pub IsGood : CoverageCounts × Meta → Type 0
IsGood s = Distinct s.0 × Covered s.0 s.1

covered_both :
    {P : Type 0} (q : Dec P) (count : ℤ) (about : String × String) (o : Option ℤ)
    (m : Option (String × String))
    → (is_some o ≡ true → is_some m ≡ true)
    → is_some (ite q (some count) o) ≡ true
    → is_some (ite q (some about) m) ≡ true
covered_both (yes p) count about o m c e = refl
covered_both (no p) count about o m c e = c e

pub put-IsGood :
    (key : CoverageKey) (count : ℤ) (about : String × String) (s : CoverageCounts × Meta)
    → IsGood s
    → IsGood (put key count s.0, put key about s.1)
put-IsGood key count about (counts, meta) (h, c) = (
  put-Distinct key count counts h,
  λ k e. rw (get-put key k about meta) (
      covered_both (pair_key.same key k) count about (get k counts) (get k meta) (c k)
        (rw (get-put key k count counts) at e)),
)

-- What a computation returns, if it returns.
abbrev pub Keeps : Result (CoverageCounts × Meta) → Type 0
Keeps (ok s) = IsGood s
Keeps (raise x) = Unit

pub >>=-Keeps :
    (m : Result (CoverageCounts × Meta))
    (f : CoverageCounts × Meta → Result (CoverageCounts × Meta))
    → Keeps m
    → ((s : CoverageCounts × Meta) → IsGood s → Keeps (f s))
    → Keeps (m >>= f)
>>=-Keeps (ok s) f h k = k s h
>>=-Keeps (raise x) f h k = tt
