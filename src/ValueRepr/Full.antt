-- ===== src/ValueRepr/Full.antt =====
-- The text of a value with nothing left out of it: no limits and no budget. What is sensitive is
-- redacted here too.
use grackle.Base.{ℕ, List, [], ◌∷◌, ◌++◌, ◌==◌, if◌then◌else◌, length}
use grackle.Base.Ascii.{codes}
use grackle.ValueRepr.Formatter.{comma_joined}
use grackle.ValueRepr.{
  Value, lazy, iterator, boolean, nothing, integer, scalar, huge_integer, span, text, binary,
  memoryview, list, tuple, set, frozenset, dict, dataclass, odd_dataclass, member, other, Items,
  nil, cons, Entries, no_entry, entry, Fields, no_field, field, unreadable, Bytes, is_sensitive_key,
  is_sensitive_name,
}
use grackle.ValueRepr.Leaves.{
  lazy_placeholder, repr_fallback, repr_enum, repr_other, repr_memoryview, repr_bool, none_text,
  redacted, count_items, count_entries, huge_text, len_suffix, span_name,
}

module _ (repr_str : List ℕ → List ℕ) (repr_bytes : Bytes → List ℕ → List ℕ) where
  unfoldable mutual
    pub full : Value → List ℕ
    full (lazy k) = lazy_placeholder k
    full iterator = codes "<iterator>"
    full (boolean b) = repr_bool b
    full nothing = none_text
    full (integer s) = s
    full (scalar s) = s
    full (huge_integer bits) = huge_text bits
    full (span k a b c) =
        span_name k ++ (codes "(" ++ (comma_joined (full a ∷ full b ∷ full c ∷ []) ++ codes ")"))
    full (text s) = repr_str s
    full (binary k s) = repr_bytes k s ++ len_suffix (length s)
    full (memoryview v) = repr_memoryview v
    full (list xs) = codes "[" ++ (comma_joined (full_items xs) ++ codes "]")
    full (tuple xs) =
        codes "("
        ++ (comma_joined (full_items xs)
            ++ (if count_items xs == 1 then codes "," ++ codes ")" else codes ")"))
    full (set xs) =
        if count_items xs == 0
        then codes "set()"
        else codes "{" ++ (comma_joined (full_items xs) ++ codes "}")
    full (frozenset xs) =
        if count_items xs == 0
        then codes "frozenset()"
        else codes "frozenset({" ++ (comma_joined (full_items xs) ++ codes "})")
    full (dict es) =
        if count_entries es == 0
        then codes "{}"
        else codes "{" ++ (comma_joined (full_entries es) ++ codes "}")
    full (dataclass t fs) =
        t.qualname ++ (codes "(" ++ (comma_joined (full_fields fs) ++ codes ")"))
    full (odd_dataclass t) = repr_fallback t
    full (member t name s) = repr_enum t name
    full (other t a s) = repr_other t a

    pub full_items : Items → List (List ℕ)
    full_items nil = []
    full_items (cons x xs) = full x ∷ full_items xs

    pub full_entries : Entries → List (List ℕ)
    full_entries no_entry = []
    full_entries (entry k v es) =
        (full k ++ (codes ": " ++ (if is_sensitive_key k then redacted else full v)))
        ∷ full_entries es

    pub full_fields : Fields → List (List ℕ)
    full_fields no_field = []
    full_fields (field n v fs) =
        (n ++ (codes "=" ++ (if is_sensitive_name n then redacted else full v))) ∷ full_fields fs
    full_fields (unreadable n fs) =
        (n ++ (codes "=" ++ (if is_sensitive_name n then redacted else codes "<unreadable>")))
        ∷ full_fields fs
