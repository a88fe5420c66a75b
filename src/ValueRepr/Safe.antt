-- ===== src/ValueRepr/Safe.antt =====
-- safe_repr against the full text.
use grackle.Base.{
  Option, none, some, ℕ, zero, suc, ◌*◌, max, List, [], ◌++◌, true, false, ◌==◌, if◌then◌else◌,
  length,
}
use grackle.Base.Ascii.{codes}
use grackle.ValueRepr.Formatter.{Formatter, Printed, budgeted, comma_joined}
use grackle.ValueRepr.{
  Value, lazy, iterator, boolean, nothing, integer, scalar, huge_integer, span, text, binary,
  memoryview, list, tuple, set, frozenset, dict, dataclass, odd_dataclass, member, other, Items,
  nil, cons, Entries, no_entry, entry, Fields, no_field, field, unreadable, Bytes,
  ValueCaptureLimits, ReprResult, is_sensitive_key, is_sensitive_name,
}
use grackle.ValueRepr.Leaves.{none_text, redacted, component, count_items, count_entries}
use grackle.Base.{◌≡◌, ◌≤◌, refl, arith, ap, ◌∙◌}
use grackle.ValueRepr.Format.{
  dispatch, repr_items, repr_entries, repr_fields, repr, safe_repr, unreprable,
}
use grackle.ValueRepr.Full.{full, full_items, full_entries, full_fields}
use grackle.ValueRepr.Leaves.{is_nothing}
use grackle.ValueRepr.Exact.{
  Exact, if_same, clipped_lem, shown-Exact, budgeted-Exact, repr_iterable-Exact, repr_set-Exact,
  repr_dict-Exact, repr_dataclass-Exact, component-Exact, repr_span-Exact, repr_clamped-Exact,
  repr_text-Exact, repr_binary-Exact,
}

module _ (repr_str : List ℕ → List ℕ) (repr_bytes : Bytes → List ℕ → List ℕ) where
  full-nothing : (x : Value) → is_nothing x ≡ true → full repr_str repr_bytes x ≡ none_text
  unfolding full is_nothing
  full-nothing nothing h = refl
  full-nothing _ h = cc

  module _ (limits : ValueCaptureLimits) where
    mutual
      unfolding dispatch full count_items

      dispatch-Exact :
          (x : Value) (level : ℕ) (f : Formatter)
          → Exact (dispatch repr_str repr_bytes limits x level f) f (full repr_str repr_bytes x)
      dispatch-Exact (lazy k) level f e = (refl, e)
      dispatch-Exact iterator level f e = (refl, e)
      dispatch-Exact (boolean b) level f e = (refl, e)
      dispatch-Exact nothing level f e = (refl, e)
      dispatch-Exact (integer s) level f e = repr_clamped-Exact s limits.max_len f e
      dispatch-Exact (scalar s) level f e = repr_clamped-Exact s limits.max_len f e
      dispatch-Exact (huge_integer bits) level f e = cc
      dispatch-Exact (span k a b c) level f e =
          repr_span-Exact k (component a (dispatch repr_str repr_bytes limits a 0))
            (component b (dispatch repr_str repr_bytes limits b 0))
            (component c (dispatch repr_str repr_bytes limits c 0)) (full repr_str repr_bytes a)
            (full repr_str repr_bytes b) (full repr_str repr_bytes c)
            (λ g.
              component-Exact a (dispatch repr_str repr_bytes limits a 0) g
                (full repr_str repr_bytes a) (full-nothing a) (dispatch-Exact a 0 g))
            (λ g.
              component-Exact b (dispatch repr_str repr_bytes limits b 0) g
                (full repr_str repr_bytes b) (full-nothing b) (dispatch-Exact b 0 g))
            (λ g.
              component-Exact c (dispatch repr_str repr_bytes limits c 0) g
                (full repr_str repr_bytes c) (full-nothing c) (dispatch-Exact c 0 g))
            f e
      dispatch-Exact (text s) level f e = repr_text-Exact repr_str repr_bytes s limits.max_len f e
      dispatch-Exact (binary k s) level f e =
          repr_binary-Exact repr_str repr_bytes k s limits.max_len f e
      dispatch-Exact (memoryview v) level f e = (refl, e)
      dispatch-Exact (list xs) level f e =
          let r =
            repr_iterable-Exact (count_items xs) limits.max_items (codes "[") (codes "]") level
              (repr_items repr_str repr_bytes limits xs limits.max_items) f
              (full_items repr_str repr_bytes xs) (λ l. items-Exact xs limits.max_items l f) [] e in
          let ss = full_items repr_str repr_bytes xs in
          (
            r.0
                ∙ ap (λ t. codes "[" ++ (comma_joined ss ++ t))
                    (if_same (count_items xs == 1) (codes "]")),
            r.1,
          )
      dispatch-Exact (tuple xs) level f e =
          repr_iterable-Exact (count_items xs) limits.max_items (codes "(") (codes ")") level
            (repr_items repr_str repr_bytes limits xs limits.max_items) f
            (full_items repr_str repr_bytes xs) (λ l. items-Exact xs limits.max_items l f)
            (codes ",") e
      dispatch-Exact (set xs) level f e =
          repr_set-Exact (count_items xs) limits.max_items (codes "{") (codes "}") level
            (repr_items repr_str repr_bytes limits xs limits.max_items) f
            (full_items repr_str repr_bytes xs) (λ l. items-Exact xs limits.max_items l f)
            (codes "set()") e
      dispatch-Exact (frozenset xs) level f e =
          repr_set-Exact (count_items xs) limits.max_items (codes "frozenset({") (codes "})") level
            (repr_items repr_str repr_bytes limits xs limits.max_items) f
            (full_items repr_str repr_bytes xs) (λ l. items-Exact xs limits.max_items l f)
            (codes "frozenset()") e
      dispatch-Exact (dict es) level f e =
          repr_dict-Exact level (repr_entries repr_str repr_bytes limits es limits.max_items) f
            (full_entries repr_str repr_bytes es) (λ l. entries-Exact es limits.max_items l f)
            (count_entries es) e
      dispatch-Exact (dataclass t fs) level f e =
          repr_dataclass-Exact level (repr_fields repr_str repr_bytes limits fs limits.max_items) f
            (full_fields repr_str repr_bytes fs) (λ l. fields-Exact fs limits.max_items l f)
            t.qualname e
      dispatch-Exact (odd_dataclass t) level f e = ground arith
      dispatch-Exact (member t name s) level f e = (refl, e)
      dispatch-Exact (other t a s) level f e = (refl, e)

      items-Exact :
          (xs : Items) (left level : ℕ) (f : Formatter)
          → count_items xs ≤ left
          → Exact
              (repr_items repr_str repr_bytes limits xs left level f)
              f
              (full_items repr_str repr_bytes xs)
      items-Exact nil left level f h e = (refl, e)
      items-Exact (cons x xs) zero level f h e = absurd (omega arith)
      items-Exact (cons x xs) (suc left) level f h e =
          let r = budgeted x (dispatch repr_str repr_bytes limits x level) f in
          let (rest, before) = items-Exact xs left level r.1 (omega arith) e in
          let (head, f_clear) =
            budgeted-Exact x (dispatch repr_str repr_bytes limits x level) f
              (full repr_str repr_bytes x) (dispatch-Exact x level f) before in
          (rw (head, rest), f_clear)

      entries-Exact :
          (es : Entries) (left level : ℕ) (f : Formatter)
          → Exact
              (repr_entries repr_str repr_bytes limits es left level f)
              f
              (full_entries repr_str repr_bytes es)
      entries-Exact no_entry left level f e = (refl, e)
      entries-Exact (entry k v es) zero level f e = cc
      entries-Exact (entry k v es) (suc left) level f e =
          let rk = budgeted k (dispatch repr_str repr_bytes limits k level) f in
          let rv = budgeted v (dispatch repr_str repr_bytes limits v level) rk.1 in
          let r : Printed = if is_sensitive_key k then (redacted, rk.1) else rv in
          let (rest, before) = entries-Exact es left level r.1 e in
          let (value, key_clear) =
            shown-Exact (is_sensitive_key k) redacted (full repr_str repr_bytes v) rv rk.1
              (budgeted-Exact v (dispatch repr_str repr_bytes limits v level) rk.1
                (full repr_str repr_bytes v) (dispatch-Exact v level rk.1))
              before in
          let (key, f_clear) =
            budgeted-Exact k (dispatch repr_str repr_bytes limits k level) f
              (full repr_str repr_bytes k) (dispatch-Exact k level f) key_clear in
          (rw (key, value, rest), f_clear)

      fields-Exact :
          (fs : Fields) (left level : ℕ) (f : Formatter)
          → Exact
              (repr_fields repr_str repr_bytes limits fs left level f)
              f
              (full_fields repr_str repr_bytes fs)
      fields-Exact no_field left level f e = (refl, e)
      fields-Exact (field n v fs) zero level f e = cc
      fields-Exact (unreadable n fs) zero level f e = cc
      fields-Exact (field n v fs) (suc left) level f e =
          let rv = budgeted v (dispatch repr_str repr_bytes limits v level) f in
          let r : Printed = if is_sensitive_name n then (redacted, f) else rv in
          let (rest, before) = fields-Exact fs left level r.1 e in
          let (value, f_clear) =
            shown-Exact (is_sensitive_name n) redacted (full repr_str repr_bytes v) rv f
              (budgeted-Exact v (dispatch repr_str repr_bytes limits v level) f
                (full repr_str repr_bytes v) (dispatch-Exact v level f))
              before in
          (rw (value, rest), f_clear)
      fields-Exact (unreadable n fs) (suc left) level f e =
          let (rest, before) = fields-Exact fs left level f e in (rw rest, before)

    -- Where the formatter does not raise, the text has at most max_len characters.
    abbrev pub IsClamped : Option (List ℕ) → ReprResult → Type 0
    IsClamped none r = length r.text ≤ limits.max_len
    IsClamped (some type_name) r = Unit

    -- Whatever the value, and whether the formatter raises on it or not: where safe_repr does not say that it
    -- left something out, the text is the full text of the value, with the items under sensitive names
    -- redacted; and unless the formatter raises, the text has at most max_len characters.
    pub safe_repr-Exact :
        (raised : Option (List ℕ)) (x : Value)
        → let r = safe_repr repr_str repr_bytes limits raised x in
          IsClamped raised r × (r.truncated ≡ false → r.text ≡ full repr_str repr_bytes x)
    unfolding safe_repr repr unreprable
    safe_repr-Exact (some type_name) x = (tt, λ e. cc)
    safe_repr-Exact none x =
        let first : Formatter = record {
          chars_remaining = max (limits.max_len * 10) 1000;
          truncated = false;
        } in
        let printed = budgeted x (dispatch repr_str repr_bytes limits x limits.max_depth) first in
        clipped_lem limits.max_len printed first (full repr_str repr_bytes x) (
          budgeted-Exact x (dispatch repr_str repr_bytes limits x limits.max_depth) first
            (full repr_str repr_bytes x) (dispatch-Exact x limits.max_depth first))
