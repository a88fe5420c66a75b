-- ===== src/ValueRepr/Format.antt =====
-- packages/agent/src/grackle/python_runtime/value_repr.py: the handlers of _SafeRepr by the class of
-- the value, safe_repr and format_arg. Whether the formatter raises on a value is an argument of
-- these two.
use grackle.Base.{
  Option, none, some, ℕ, zero, suc, ◌-◌, ◌*◌, max, List, [], ◌∷◌, ◌++◌, Bool, true, false, ltb, leb,
  ◌&&◌, if◌then◌else◌, length, take,
}
use grackle.Base.Ascii.{codes}
use grackle.ValueRepr.Formatter.{
  Formatter, Printed, Pieces, truncate, budgeted, repr_iterable, repr_set, repr_dict,
  repr_dataclass,
}
use grackle.ValueRepr.{
  Value, lazy, iterator, boolean, nothing, integer, scalar, huge_integer, span, text, binary,
  memoryview, list, tuple, set, frozenset, dict, dataclass, odd_dataclass, member, other, Items,
  nil, cons, Entries, no_entry, entry, Fields, no_field, field, unreadable, Bytes,
  ValueCaptureLimits, ReprResult, ArgValue, is_sensitive_key, is_sensitive_name, ellipsis,
}
use grackle.ValueRepr.Leaves.{
  lazy_placeholder, repr_fallback, repr_enum, repr_other, repr_memoryview, repr_bool, none_text,
  redacted, component, repr_span, count_items, count_entries, repr_clamped, huge_text, repr_text,
  repr_binary,
}

-- The clamp at the end of `safe_repr`.
unfoldable pub clipped : ℕ → Printed → ReprResult
unfolding codes
clipped most (s, f) =
    if ltb most (length s)
    then record {
      text = if ltb 3 most then take (most - 3) s ++ ellipsis else take most s;
      truncated = true;
    }
    else record { text = s; truncated = f.truncated }

-- The `except` of `safe_repr`.
unfoldable pub unreprable : List ℕ → ReprResult
unfolding codes
unreprable type_name = record {
  text = codes "<unreprable: " ++ (type_name ++ codes ">");
  truncated = true;
}

module _ (repr_str : List ℕ → List ℕ) (repr_bytes : Bytes → List ℕ → List ℕ) where
  module _ (limits : ValueCaptureLimits) where
    -- `_repr1_dispatch`, with the loops over items, entries and fields that may still be shown.
    unfoldable mutual
      pub dispatch : Value → ℕ → Formatter → Printed
      dispatch (lazy k) level f = (lazy_placeholder k, f)
      dispatch iterator level f = (codes "<iterator>", f)
      dispatch (boolean b) level f = (repr_bool b, f)
      dispatch nothing level f = (none_text, f)
      dispatch (integer s) level f = repr_clamped s limits.max_len f
      dispatch (scalar s) level f = repr_clamped s limits.max_len f
      dispatch (huge_integer bits) level f = (huge_text bits, truncate f)
      dispatch (span k a b c) level f =
          repr_span k (component a (dispatch a 0)) (component b (dispatch b 0))
            (component c (dispatch c 0)) f
      dispatch (text s) level f = repr_text repr_str repr_bytes s limits.max_len f
      dispatch (binary k s) level f = repr_binary repr_str repr_bytes k s limits.max_len f
      dispatch (memoryview v) level f = (repr_memoryview v, f)
      dispatch (list xs) level f =
          repr_iterable (count_items xs) limits.max_items (codes "[") (codes "]") [] level
            (repr_items xs limits.max_items) f
      dispatch (tuple xs) level f =
          repr_iterable (count_items xs) limits.max_items (codes "(") (codes ")") (codes ",") level
            (repr_items xs limits.max_items) f
      dispatch (set xs) level f =
          repr_set (count_items xs) limits.max_items (codes "set()") (codes "{") (codes "}") level
            (repr_items xs limits.max_items) f
      dispatch (frozenset xs) level f =
          repr_set (count_items xs) limits.max_items (codes "frozenset()") (codes "frozenset({")
            (codes "})") level (repr_items xs limits.max_items) f
      dispatch (dict es) level f =
          repr_dict (count_entries es) level (repr_entries es limits.max_items) f
      dispatch (dataclass t fs) level f =
          repr_dataclass t.qualname level (repr_fields fs limits.max_items) f
      dispatch (odd_dataclass t) level f =
          if leb level 0 then (t.qualname ++ codes "(...)", truncate f) else (repr_fallback t, f)
      dispatch (member t name s) level f = (repr_enum t name, f)
      dispatch (other t a s) level f = (repr_other t a, f)

      pub repr_items : Items → ℕ → ℕ → Formatter → Pieces
      repr_items nil left level f = ([], f)
      repr_items (cons x xs) zero level f = ([], f)
      repr_items (cons x xs) (suc left) level f =
          let (s, f1) = budgeted x (dispatch x level) f in
          let (ss, f2) = repr_items xs left level f1 in (s ∷ ss, f2)

      pub repr_entries : Entries → ℕ → ℕ → Formatter → Pieces
      repr_entries no_entry left level f = ([], f)
      repr_entries (entry k v es) zero level f = (ellipsis ∷ [], truncate f)
      repr_entries (entry k v es) (suc left) level f =
          let (ks, f1) = budgeted k (dispatch k level) f in
          let (vs, f2) =
            if is_sensitive_key k then (redacted, f1) else budgeted v (dispatch v level) f1 in
          let (ss, f3) = repr_entries es left level f2 in ((ks ++ (codes ": " ++ vs)) ∷ ss, f3)

      pub repr_fields : Fields → ℕ → ℕ → Formatter → Pieces
      repr_fields no_field left level f = ([], f)
      repr_fields (field n v fs) zero level f = (ellipsis ∷ [], truncate f)
      repr_fields (unreadable n fs) zero level f = (ellipsis ∷ [], truncate f)
      repr_fields (field n v fs) (suc left) level f =
          let (vs, f1) =
            if is_sensitive_name n then (redacted, f) else budgeted v (dispatch v level) f in
          let (ss, f2) = repr_fields fs left level f1 in ((n ++ (codes "=" ++ vs)) ∷ ss, f2)
      repr_fields (unreadable n fs) (suc left) level f =
          let vs = if is_sensitive_name n then redacted else codes "<unreadable>" in
          let (ss, f1) = repr_fields fs left level f in ((n ++ (codes "=" ++ vs)) ∷ ss, f1)

    -- `_SafeRepr.__init__` and `repr`
    unfoldable pub repr : Value → Printed
    unfolding dispatch budgeted
    repr x =
        budgeted x (dispatch x limits.max_depth)
          (record { chars_remaining = max (limits.max_len * 10) 1000; truncated = false })

    -- Where the formatter raises, which some name of a type says, that name is the text, and nothing cuts it.
    unfoldable pub safe_repr : Option (List ℕ) → Value → ReprResult
    unfolding repr clipped unreprable
    safe_repr none x = clipped limits.max_len (repr x)
    safe_repr (some type_name) x = unreprable type_name

    unfoldable pub format_arg : List ℕ → Option (List ℕ) → Value → Bool → ArgValue
    unfolding safe_repr codes
    format_arg name raised value redact =
        let r = safe_repr raised value in
        if redact && is_sensitive_name name
        then record { name = name; repr = redacted; redacted = true; truncated = false }
        else record { name = name; repr = r.text; redacted = false; truncated = r.truncated }
