-- ===== src/ValueRepr/Redacted.antt =====
-- The values in which all that stands under a sensitive name is taken away.
use grackle.Base.{ℕ, suc, List, Bool, ◌&&◌, if◌then◌else◌}
use grackle.ValueRepr.{
  Value, nothing, span, text, list, tuple, set, frozenset, dict, dataclass, Items, nil, cons,
  Entries, no_entry, entry, Fields, no_field, field, unreadable, is_sensitive_key,
  is_sensitive_name,
}
use grackle.ValueRepr.Leaves.{count_items, count_entries}
use grackle.Base.{◌≡◌, refl, ap}
use grackle.ValueRepr.{is_recursive}
use grackle.ValueRepr.Leaves.{is_nothing}

-- The value with None in place of all that stands under a sensitive key or field name.
unfoldable mutual
  pub redact : Value → Value
  redact (span k a b c) = span k (redact a) (redact b) (redact c)
  redact (list xs) = list (redact_items xs)
  redact (tuple xs) = tuple (redact_items xs)
  redact (set xs) = set (redact_items xs)
  redact (frozenset xs) = frozenset (redact_items xs)
  redact (dict es) = dict (redact_entries es)
  redact (dataclass t fs) = dataclass t (redact_fields fs)
  redact x = x

  pub redact_items : Items → Items
  redact_items nil = nil
  redact_items (cons x xs) = cons (redact x) (redact_items xs)

  pub redact_entries : Entries → Entries
  redact_entries no_entry = no_entry
  redact_entries (entry k v es) =
      entry (redact k) (if is_sensitive_key k then nothing else redact v) (redact_entries es)

  pub redact_fields : Fields → Fields
  redact_fields no_field = no_field
  redact_fields (field n v fs) =
      field n (if is_sensitive_name n then nothing else redact v) (redact_fields fs)
  redact_fields (unreadable n fs) = unreadable n (redact_fields fs)

-- The same, of an argument.
unfoldable pub redact_arg : List ℕ → Bool → Value → Value
unfolding redact
redact_arg name redacts x = if redacts && is_sensitive_name name then nothing else redact x

pub count_items-redact : (xs : Items) → count_items (redact_items xs) ≡ count_items xs
unfolding count_items redact
count_items-redact nil = refl
count_items-redact (cons x xs) = ap suc (count_items-redact xs)

pub count_entries-redact : (es : Entries) → count_entries (redact_entries es) ≡ count_entries es
unfolding count_entries redact
count_entries-redact no_entry = refl
count_entries-redact (entry k v es) = ap suc (count_entries-redact es)

pub is_recursive-redact : (x : Value) → is_recursive (redact x) ≡ is_recursive x
unfolding is_recursive redact
is_recursive-redact (span k a b c) = refl
is_recursive-redact _ = refl

pub is_nothing-redact : (x : Value) → is_nothing (redact x) ≡ is_nothing x
unfolding is_nothing redact
is_nothing-redact nothing = refl
is_nothing-redact _ = refl

pub is_sensitive_key-redact : (x : Value) → is_sensitive_key (redact x) ≡ is_sensitive_key x
unfolding is_sensitive_key redact
is_sensitive_key-redact (text s) = refl
is_sensitive_key-redact _ = refl
