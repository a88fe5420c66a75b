-- ===== src/ValueRepr/Exact.antt =====
-- What the formatter prints when it does not set its flag: everything.
use grackle.Base.{
  ℕ, zero, suc, ◌-◌, List, [], ◌∷◌, ◌++◌, Bool, true, false, ◌==◌, if◌then◌else◌, length, take,
}
use grackle.Base.Ascii.{codes}
use grackle.ValueRepr.Formatter.{
  Formatter, Printed, Pieces, budgeted, comma_joined, repr_iterable, repr_set, repr_dict,
  repr_dataclass,
}
use grackle.ValueRepr.{Value, Span, Bytes, ellipsis, clamp_middle}
use grackle.ValueRepr.Leaves.{none_text, component, repr_span, repr_clamped, repr_text, repr_binary}
use grackle.Base.{◌≡◌, ◌≤◌, refl, arith, ap}
use grackle.ValueRepr.Formatter.{bracketed, charge}
use grackle.ValueRepr.Format.{clipped}
use grackle.Base.{length-append, length-take-le}
use grackle.ValueRepr.Leaves.{is_nothing, len_suffix, span_name}

-- From a state whose flag is not set at the end, the text is s, and the flag was not set before.
abbrev pub Exact {ℓ} : {A : Type ℓ} → A × Formatter → Formatter → A → Type ℓ
Exact r f s = r.1.truncated ≡ false → (r.0 ≡ s) × (f.truncated ≡ false)

pub clamp_middle-exact :
    (s : List ℕ) (n : ℕ) → (clamp_middle s n).1 ≡ false → (clamp_middle s n).0 ≡ s
unfolding clamp_middle
clamp_middle-exact s n h = ground arith

pub charge-Exact :
    (x : Value) (r : Printed) (f : Formatter) (s : List ℕ) → Exact r f s → Exact (charge x r) f s
unfolding charge
charge-Exact x r f s h e = ground (arith, h)

pub budgeted-Exact :
    (x : Value) (run : Formatter → Printed) (f : Formatter) (s : List ℕ)
    → Exact (run f) f s
    → Exact (budgeted x run f) f s
unfolding budgeted
budgeted-Exact x run f s h e = ground (arith, charge-Exact x (run f) f s h)

pub bracketed-Exact :
    (n most : ℕ) (left right : List ℕ) (r : Pieces) (f : Formatter) (ss : List (List ℕ))
    → (n ≤ most → Exact r f ss)
    → Exact (bracketed n most left right r) f (left ++ (comma_joined ss ++ right))
unfolding bracketed
bracketed-Exact n most left right r f ss h e = ground (arith, h)

module _ (n most : ℕ) (left right : List ℕ) (level : ℕ) (items : ℕ → Formatter → Pieces) where
  module _ (f : Formatter) (ss : List (List ℕ))
      (h : (l : ℕ) → n ≤ most → Exact (items l f) f ss) where
    pub repr_iterable-Exact :
        (trail : List ℕ)
        → Exact
            (repr_iterable n most left right trail level items f)
            f
            (left ++ (comma_joined ss ++ (if n == 1 then trail ++ right else right)))
    unfolding repr_iterable
    repr_iterable-Exact trail e = ground (
      arith,
      bracketed-Exact n most left (if n == 1 then trail ++ right else right) (items (level - 1) f) f
          ss (h (level - 1)),
    )

    pub repr_set-Exact :
        (empty : List ℕ)
        → Exact
            (repr_set n most empty left right level items f)
            f
            (if n == 0 then empty else left ++ (comma_joined ss ++ right))
    unfolding repr_set
    repr_set-Exact empty e =
        ground (arith, bracketed-Exact n most left right (items (level - 1) f) f ss (h (level - 1)))

module _ (level : ℕ) (parts : ℕ → Formatter → Pieces) (f : Formatter) (ss : List (List ℕ)) where
  module _ (h : (l : ℕ) → Exact (parts l f) f ss) where
    pub repr_dict-Exact :
        (n : ℕ)
        → Exact
            (repr_dict n level parts f)
            f
            (if n == 0 then codes "{}" else codes "{" ++ (comma_joined ss ++ codes "}"))
    unfolding repr_dict
    repr_dict-Exact n e = ground (arith, h (level - 1))

    pub repr_dataclass-Exact :
        (name : List ℕ)
        → Exact
            (repr_dataclass name level parts f)
            f
            (name ++ (codes "(" ++ (comma_joined ss ++ codes ")")))
    unfolding repr_dataclass
    repr_dataclass-Exact name e = ground (arith, h (level - 1))

pub component-Exact :
    (x : Value) (run : Formatter → Printed) (f : Formatter) (s : List ℕ)
    → (is_nothing x ≡ true → s ≡ none_text)
    → Exact (run f) f s
    → Exact (component x run f) f s
unfolding component
component-Exact x run f s n h e = ground (arith, n, budgeted-Exact x run f s h)

pub repr_span-Exact :
    (k : Span) (start stop step : Formatter → Printed) (a b c : List ℕ)
    → ((f : Formatter) → Exact (start f) f a)
    → ((f : Formatter) → Exact (stop f) f b)
    → ((f : Formatter) → Exact (step f) f c)
    → (f : Formatter)
    → Exact
        (repr_span k start stop step f)
        f
        (span_name k ++ (codes "(" ++ (comma_joined (a ∷ b ∷ c ∷ []) ++ codes ")")))
unfolding repr_span
repr_span-Exact k start stop step a b c ha hb hc f e =
    let f1 = (start f).1 in let f2 = (stop f1).1 in ground (arith, ha f, hb f1, hc f2)

pub repr_clamped-Exact : (s : List ℕ) (n : ℕ) (f : Formatter) → Exact (repr_clamped s n f) f s
unfolding repr_clamped
repr_clamped-Exact s n f e = ground (arith, clamp_middle-exact s n)

take_all : (n : ℕ) (s : List ℕ) → length s ≤ n → take n s ≡ s
take_all zero [] h = refl
take_all zero (c ∷ s) h = absurd (omega arith)
take_all (suc n) [] h = refl
take_all (suc n) (c ∷ s) h = ap (◌∷◌ c) (take_all n s (omega arith))

pub if_same {ℓ} : {A : Type ℓ} (b : Bool) (a : A) → (if b then a else a) ≡ a
if_same true a = refl
if_same false a = refl

pub clipped_lem :
    (most : ℕ) (r : Printed) (f : Formatter) (s : List ℕ)
    → Exact r f s
    → (length (clipped most r).text ≤ most)
      × ((clipped most r).truncated ≡ false → (clipped most r).text ≡ s)
unfolding clipped codes
clipped_lem most r f s h = (
  ground (
    arith,
    length-append (take (most - 3) r.0) ellipsis,
    length-take-le (most - 3) r.0,
    length-take-le most r.0,
  ),
  λ e. ground (arith, h),
)

-- A text or its redaction.
pub shown-Exact :
    (b : Bool) (s t : List ℕ) (r : Printed) (f : Formatter)
    → Exact r f t
    → Exact (let u : Printed = if b then (s, f) else r in u) f (if b then s else t)
shown-Exact true s t r f h e = (refl, e)
shown-Exact false s t r f h e = h e

module _ (repr_str : List ℕ → List ℕ) (repr_bytes : Bytes → List ℕ → List ℕ) where
  pub repr_text-Exact :
      (s : List ℕ) (n : ℕ) (f : Formatter)
      → Exact (repr_text repr_str repr_bytes s n f) f (repr_str s)
  unfolding repr_text
  repr_text-Exact s n f e = ground (arith, take_all n s, clamp_middle-exact (repr_str (take n s)) n)

  pub repr_binary-Exact :
      (k : Bytes) (s : List ℕ) (n : ℕ) (f : Formatter)
      → Exact (repr_binary repr_str repr_bytes k s n f) f (repr_bytes k s ++ len_suffix (length s))
  unfolding repr_binary
  repr_binary-Exact k s n f e =
      let limit = n - length (len_suffix (length s)) in
      ground (arith, take_all limit s, clamp_middle-exact (repr_bytes k (take limit s)) limit)
