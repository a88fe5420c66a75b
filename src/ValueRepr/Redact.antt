-- ===== src/ValueRepr/Redact.antt =====
-- What stands under a sensitive name has no influence on the texts.
use grackle.Base.{
  ℕ, zero, suc, ◌*◌, max, List, [], ◌∷◌, ◌++◌, Bool, true, false, ◌&&◌, if◌then◌else◌,
}
use grackle.Base.Ascii.{codes}
use grackle.ValueRepr.Formatter.{
  Formatter, Printed, budgeted, repr_iterable, repr_set, repr_dict, repr_dataclass,
}
use grackle.ValueRepr.{
  Value, nothing, span, list, tuple, set, frozenset, dict, dataclass, Items, nil, cons, Entries,
  no_entry, entry, Fields, no_field, field, unreadable, Bytes, ValueCaptureLimits, is_sensitive_key,
  is_sensitive_name,
}
use grackle.ValueRepr.Leaves.{redacted, component, repr_span}
use grackle.Base.{Option, none, some, ◌≡◌, refl, arith, sym, ap, ◌∙◌, Bool-cases, inl, inr}
use grackle.ValueRepr.Format.{
  dispatch, repr_items, repr_entries, repr_fields, repr, safe_repr, format_arg, clipped,
}
use grackle.ValueRepr.Formatter.{charge}
use grackle.ValueRepr.Redacted.{
  redact, redact_items, redact_entries, redact_fields, redact_arg, count_items-redact,
  count_entries-redact, is_recursive-redact, is_nothing-redact, is_sensitive_key-redact,
}

-- The same text where the dispatch gives the same.
budgeted-redact :
    (x : Value) (run run' : Formatter → Printed)
    → ((f : Formatter) → run' f ≡ run f)
    → (f : Formatter) → budgeted (redact x) run' f ≡ budgeted x run f
unfolding budgeted charge
budgeted-redact x run run' h f = ground (arith, h f, is_recursive-redact x)

component-redact :
    (x : Value) (run run' : Formatter → Printed)
    → ((f : Formatter) → run' f ≡ run f)
    → (f : Formatter) → component (redact x) run' f ≡ component x run f
unfolding component
component-redact x run run' h f =
    ground (arith, budgeted-redact x run run' h f, is_nothing-redact x)

module _ (repr_str : List ℕ → List ℕ) (repr_bytes : Bytes → List ℕ → List ℕ) where
  module _ (limits : ValueCaptureLimits) where
    -- A value or its redaction.
    shown-redact :
        (b : Bool) (v : Value) (level : ℕ)
        → ((g : Formatter)
            → dispatch repr_str repr_bytes limits (redact v) level g
              ≡ dispatch repr_str repr_bytes limits v level g)
        → (f : Formatter)
        → let v' = if b then nothing else redact v in
          (if b
            then (redacted, f)
            else budgeted v' (dispatch repr_str repr_bytes limits v' level) f)
          ≡ (if b
              then (redacted, f)
              else budgeted v (dispatch repr_str repr_bytes limits v level) f)
    shown-redact true v level h f = refl
    shown-redact false v level h f =
        budgeted-redact v (dispatch repr_str repr_bytes limits v level)
          (dispatch repr_str repr_bytes limits (redact v) level) h f

    mutual
      unfolding dispatch redact

      dispatch-redact :
          (x : Value) (level : ℕ) (f : Formatter)
          → dispatch repr_str repr_bytes limits (redact x) level f
            ≡ dispatch repr_str repr_bytes limits x level f
      dispatch-redact (span k a b c) level f = λ i.
          repr_span k
            (λ g.
              component-redact a (dispatch repr_str repr_bytes limits a 0)
                (dispatch repr_str repr_bytes limits (redact a) 0) (dispatch-redact a 0) g i)
            (λ g.
              component-redact b (dispatch repr_str repr_bytes limits b 0)
                (dispatch repr_str repr_bytes limits (redact b) 0) (dispatch-redact b 0) g i)
            (λ g.
              component-redact c (dispatch repr_str repr_bytes limits c 0)
                (dispatch repr_str repr_bytes limits (redact c) 0) (dispatch-redact c 0) g i)
            f
      dispatch-redact (list xs) level f = λ i.
          repr_iterable (count_items-redact xs i) limits.max_items (codes "[") (codes "]") [] level
            (λ l g. items-redact xs limits.max_items l g i) f
      dispatch-redact (tuple xs) level f = λ i.
          repr_iterable (count_items-redact xs i) limits.max_items (codes "(") (codes ")")
            (codes ",") level (λ l g. items-redact xs limits.max_items l g i) f
      dispatch-redact (set xs) level f = λ i.
          repr_set (count_items-redact xs i) limits.max_items (codes "set()") (codes "{")
            (codes "}") level (λ l g. items-redact xs limits.max_items l g i) f
      dispatch-redact (frozenset xs) level f = λ i.
          repr_set (count_items-redact xs i) limits.max_items (codes "frozenset()")
            (codes "frozenset({") (codes "})") level (λ l g. items-redact xs limits.max_items l g i)
            f
      dispatch-redact (dict es) level f = λ i.
          repr_dict (count_entries-redact es i) level
            (λ l g. entries-redact es limits.max_items l g i) f
      dispatch-redact (dataclass t fs) level f =
          λ i. repr_dataclass t.qualname level (λ l g. fields-redact fs limits.max_items l g i) f
      dispatch-redact _ level f = refl

      items-redact :
          (xs : Items) (left level : ℕ) (f : Formatter)
          → repr_items repr_str repr_bytes limits (redact_items xs) left level f
            ≡ repr_items repr_str repr_bytes limits xs left level f
      items-redact nil left level f = refl
      items-redact (cons x xs) zero level f = refl
      items-redact (cons x xs) (suc left) level f =
          let e =
            budgeted-redact x (dispatch repr_str repr_bytes limits x level)
              (dispatch repr_str repr_bytes limits (redact x) level) (dispatch-redact x level) f in
          λ i. let (s, f1) = e i in let (ss, f2) = items-redact xs left level f1 i in (s ∷ ss, f2)

      entries-redact :
          (es : Entries) (left level : ℕ) (f : Formatter)
          → repr_entries repr_str repr_bytes limits (redact_entries es) left level f
            ≡ repr_entries repr_str repr_bytes limits es left level f
      entries-redact no_entry left level f = refl
      entries-redact (entry k v es) zero level f = refl
      entries-redact (entry k v es) (suc left) level f =
          let e =
            budgeted-redact k (dispatch repr_str repr_bytes limits k level)
              (dispatch repr_str repr_bytes limits (redact k) level) (dispatch-redact k level) f in
          rw (is_sensitive_key-redact k) λ i.
            let (ks, f1) = e i in
            let (vs, f2) =
              shown-redact (is_sensitive_key k) v level (dispatch-redact v level) f1 i in
            let (ss, f3) = entries-redact es left level f2 i in
            ((ks ++ (codes ": " ++ vs)) ∷ ss, f3)

      fields-redact :
          (fs : Fields) (left level : ℕ) (f : Formatter)
          → repr_fields repr_str repr_bytes limits (redact_fields fs) left level f
            ≡ repr_fields repr_str repr_bytes limits fs left level f
      fields-redact no_field left level f = refl
      fields-redact (field n v fs) zero level f = refl
      fields-redact (unreadable n fs) zero level f = refl
      fields-redact (field n v fs) (suc left) level f =
          let q = shown-redact (is_sensitive_name n) v level (dispatch-redact v level) f in
          λ i.
            let (vs, f1) = q i in
            let (ss, f2) = fields-redact fs left level f1 i in ((n ++ (codes "=" ++ vs)) ∷ ss, f2)
      fields-redact (unreadable n fs) (suc left) level f = rw (fields-redact fs left level f)

    pub safe_repr-redact :
        (raised : Option (List ℕ)) (x : Value)
        → safe_repr repr_str repr_bytes limits raised (redact x)
          ≡ safe_repr repr_str repr_bytes limits raised x
    unfolding safe_repr repr
    safe_repr-redact (some type_name) x = refl
    safe_repr-redact none x =
        let first : Formatter = record {
          chars_remaining = max (limits.max_len * 10) 1000;
          truncated = false;
        } in
        ap (clipped limits.max_len) (
          budgeted-redact x (dispatch repr_str repr_bytes limits x limits.max_depth)
            (dispatch repr_str repr_bytes limits (redact x) limits.max_depth)
            (dispatch-redact x limits.max_depth) first)

    safe_repr_same :
        (raised : Option (List ℕ)) (x y : Value)
        → redact x ≡ redact y
        → safe_repr repr_str repr_bytes limits raised x
          ≡ safe_repr repr_str repr_bytes limits raised y
    safe_repr_same raised x y h =
        sym (safe_repr-redact raised x)
        ∙ (ap (safe_repr repr_str repr_bytes limits raised) h ∙ safe_repr-redact raised y)

    -- Where the formatter raises on both or neither and their types have one name, values that differ only in what stands under sensitive names, keys and fields, at any depth, give
    -- the same argument on the wire: with redaction on, an argument with a sensitive name gives the same
    -- whatever its value is.
    pub format_arg-redact :
        (name : List ℕ) (raised : Option (List ℕ)) (redacts : Bool) (x y : Value)
        → redact_arg name redacts x ≡ redact_arg name redacts y
        → format_arg repr_str repr_bytes limits name raised x redacts
          ≡ format_arg repr_str repr_bytes limits name raised y redacts
    unfolding format_arg redact_arg
    format_arg-redact name raised redacts x y h =
        elim (Bool-cases (redacts && is_sensitive_name name)) [
          | inl e ↦ rw e
          | inr e ↦ let same = safe_repr_same raised x y (rw e at h) in rw (e, same)
        ]
