-- ===== src/ValueRepr/Leaves.antt =====
-- packages/agent/src/grackle/python_runtime/value_repr.py: the handlers of values without parts, and
-- of ranges and slices over the texts of their bounds. The reprs of texts and bytes are parameters.
use grackle.Base.{
  ℕ, suc, ◌-◌, List, [], ◌∷◌, ◌++◌, Option, none, some, Bool, true, false, ltb, ◌&&◌, ◌||◌,
  if◌then◌else◌, length, take, is_yes,
}
use grackle.Base.Ascii.{codes, decimal}
use grackle.Base.Dict.{list_same, number_key}
use native.Mathlib.Decide.{ℕ_discrete}
use grackle.ValueRepr.Formatter.{Formatter, Printed, truncate, truncate_if, budgeted, comma_joined}
use grackle.ValueRepr.{
  Value, nothing, Items, nil, cons, Entries, no_entry, entry, Lazy, coroutine, async_generator,
  generator, Span, range, slice, Bytes, TypeName, Attributes, no_shape, failing, shaped,
  clamp_middle,
}

unfoldable pub lazy_placeholder : Lazy → List ℕ
unfolding codes
lazy_placeholder coroutine = codes "<coroutine>"
lazy_placeholder async_generator = codes "<async_generator>"
lazy_placeholder generator = codes "<generator>"

unfoldable pub is_plain_module : List ℕ → Bool
unfolding codes list_same ℕ_discrete
is_plain_module m =
    is_yes (list_same m (codes "builtins"))
    || is_yes (list_same m (codes "__main__"))
    || is_yes (list_same m [])

-- `_repr_fallback`
unfoldable pub repr_fallback : TypeName → List ℕ
unfolding is_plain_module codes
repr_fallback t =
    if is_plain_module t.module_name
    then codes "<" ++ (t.qualname ++ codes " object>")
    else codes "<" ++ (t.module_name ++ (codes "." ++ (t.qualname ++ codes " object>")))

-- `_repr_enum_safe`
unfoldable pub repr_enum : TypeName → Option (List ℕ) → List ℕ
unfolding repr_fallback codes
repr_enum t none = repr_fallback t
repr_enum t (some name) = t.qualname ++ (codes "." ++ name)

-- `_ARRAY_LIKE_TYPES`
unfoldable pub is_array_like : TypeName → Bool
unfolding codes list_same ℕ_discrete
is_array_like t =
    let is = λ (m n : List ℕ). is_yes (list_same t.module_name m) && is_yes (list_same t.name n) in
    is (codes "numpy") (codes "ndarray")
    || is (codes "pandas.core.frame") (codes "DataFrame")
    || is (codes "pandas.core.series") (codes "Series")
    || is (codes "pandas") (codes "DataFrame")
    || is (codes "pandas") (codes "Series")

-- `_repr_module_special`
unfoldable pub repr_special : TypeName → Attributes → Option (List ℕ)
unfolding is_array_like codes
repr_special t no_shape = none
repr_special t failing = none
repr_special t (shaped shape dtype) =
    if is_array_like t
    then some (
        codes "<"
        ++ (t.name ++ (codes " shape=" ++ (shape ++ (codes " dtype=" ++ (dtype ++ codes ">"))))))
    else none

unfoldable pub repr_other : TypeName → Attributes → List ℕ
unfolding repr_special repr_fallback
repr_other t a = elim (repr_special t a) [ none ↦ repr_fallback t | some s ↦ s ]

unfoldable pub repr_memoryview : Option (List ℕ × List ℕ) → List ℕ
unfolding codes
repr_memoryview none = codes "<memoryview>"
repr_memoryview (some (format, shape)) =
    codes "<memoryview format=" ++ (format ++ (codes " shape=" ++ (shape ++ codes ">")))

unfoldable pub repr_bool : Bool → List ℕ
unfolding codes
repr_bool true = codes "True"
repr_bool false = codes "False"

unfoldable pub span_name : Span → List ℕ
unfolding codes
span_name range = codes "range"
span_name slice = codes "slice"

abbrev pub none_text : List ℕ
none_text = codes "None"

abbrev pub redacted : List ℕ
redacted = codes "<redacted>"

unfoldable pub is_nothing : Value → Bool
is_nothing nothing = true
is_nothing x = false

-- A bound of a range or slice.
unfoldable pub component : Value → (Formatter → Printed) → Formatter → Printed
unfolding is_nothing budgeted codes
component x dispatch f = if is_nothing x then (none_text, f) else budgeted x dispatch f

-- `_repr_range_or_slice_safe`
unfoldable pub repr_span :
    Span
    → (Formatter → Printed)
    → (Formatter → Printed)
    → (Formatter → Printed)
    → Formatter
    → Printed
unfolding span_name comma_joined codes
repr_span k start stop step f =
    let (a, f1) = start f in
    let (b, f2) = stop f1 in
    let (c, f3) = step f2 in
    (span_name k ++ (codes "(" ++ (comma_joined (a ∷ b ∷ c ∷ []) ++ codes ")")), f3)

-- `len(x)`
unfoldable pub count_items : Items → ℕ
count_items nil = 0
count_items (cons x xs) = suc (count_items xs)

unfoldable pub count_entries : Entries → ℕ
count_entries no_entry = 0
count_entries (entry k v es) = suc (count_entries es)

-- `_repr_int_safe` and `_repr_scalar_safe`, of the repr of the value.
unfoldable pub repr_clamped : List ℕ → ℕ → Formatter → Printed
unfolding clamp_middle
repr_clamped s limit f = let (t, cut) = clamp_middle s limit in (t, truncate_if cut f)

unfoldable pub huge_text : ℕ → List ℕ
unfolding codes decimal
huge_text bits = codes "<int ~" ++ (decimal bits ++ codes " bits>")

unfoldable pub len_suffix : ℕ → List ℕ
unfolding codes decimal
len_suffix n = codes " (len=" ++ (decimal n ++ codes ")")

module _ (repr_str : List ℕ → List ℕ) (repr_bytes : Bytes → List ℕ → List ℕ) where
  -- `_repr_str_safe`
  unfoldable pub repr_text : List ℕ → ℕ → Formatter → Printed
  unfolding clamp_middle
  repr_text s most f =
      let (t, cut) = clamp_middle (repr_str (take most s)) most in
      (t, truncate_if (ltb most (length s) || cut) f)

  -- `_repr_bytes_safe`
  unfoldable pub repr_binary : Bytes → List ℕ → ℕ → Formatter → Printed
  unfolding clamp_middle len_suffix
  repr_binary k s most f =
      let suffix = len_suffix (length s) in
      let limit = most - length suffix in
      let (preview, cut) = clamp_middle (repr_bytes k (take limit s)) limit in
      let result = preview ++ suffix in
      if ltb most (length result)
      then ((clamp_middle (repr_bytes k (take most s)) most).0, truncate f)
      else (result, truncate_if (ltb limit (length s) || cut) f)
