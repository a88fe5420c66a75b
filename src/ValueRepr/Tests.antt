-- ===== src/ValueRepr/Tests.antt =====
-- packages/agent/src/grackle/python_runtime/value_repr.py: runs, and the theorems at concrete values.
use grackle.Base.{
  none, some, zero, suc, length, String, ℕ, List, [], ◌∷◌, ◌++◌, true, false, ◌≡◌, refl,
}
use grackle.Base.Ascii.{codes}
use grackle.ValueRepr.{
  Value, integer, text, list, dict, nil, cons, no_entry, entry, Bytes, ValueCaptureLimits,
  is_sensitive_name, is_sensitive_key,
}
use grackle.ValueRepr.Format.{safe_repr, format_arg, dispatch, unreprable}
use grackle.ValueRepr.Formatter.{repr_dict, repr_iterable}
use grackle.ValueRepr.Leaves.{count_entries, count_items, repr_text, repr_clamped}
use grackle.ValueRepr.Full.{full}
use grackle.ValueRepr.Safe.{IsClamped, safe_repr-Exact}
use grackle.ValueRepr.Redacted.{redact, redact_arg}
use grackle.ValueRepr.Redact.{format_arg-redact}

abbrev quote : List ℕ → List ℕ
quote s = codes "'" ++ (s ++ codes "'")

abbrev quote_bytes : Bytes → List ℕ → List ℕ
quote_bytes k s = codes "b" ++ quote s

abbrev limits : ValueCaptureLimits
limits = record { max_len = 120; max_items = 2; max_depth = 2 }

abbrev number : String → Value
number s = integer (codes s)

-- {"Auth-Token": x, "a": [1, 2, 3]}
abbrev headers : Value → Value
headers x = dict (
    entry (text (codes "Auth-Token")) x (
      entry (text (codes "a"))
        (list (cons (number "1") (cons (number "2") (cons (number "3") nil)))) no_entry))

abbrev xs : ℕ → List ℕ
xs zero = []
xs (suc n) = 120 ∷ xs n

abbrev long_name : List ℕ
long_name = xs 200

header_text :
    (safe_repr quote quote_bytes limits none (headers (number "7"))).text
    ≡ codes "{'Auth-Token': <redacted>, 'a': [1, 2, ...]}"
unfolding safe_repr dispatch repr_dict count_entries repr_text is_sensitive_key is_sensitive_name
    repr_iterable count_items repr_clamped
header_text = refl

-- The text for a value that the formatter raises on is not cut to max_len, which is 120 here.
name_uncut : length (safe_repr quote quote_bytes limits (some long_name) (number "7")).text ≡ 214
unfolding safe_repr codes unreprable
name_uncut = refl

safe_repr-Exact_example :
    IsClamped quote quote_bytes limits none
      (safe_repr quote quote_bytes limits none (headers (number "7")))
    × ((safe_repr quote quote_bytes limits none (headers (number "7"))).truncated ≡ false
        → (safe_repr quote quote_bytes limits none (headers (number "7"))).text
          ≡ full quote quote_bytes (headers (number "7")))
safe_repr-Exact_example = safe_repr-Exact quote quote_bytes limits none (headers (number "7"))

format_arg-redact_example :
    format_arg quote quote_bytes limits (codes "h") none (headers (number "7")) true
    ≡ format_arg quote quote_bytes limits (codes "h") none (headers (number "8")) true
unfolding redact_arg redact codes is_sensitive_key is_sensitive_name
format_arg-redact_example =
    format_arg-redact quote quote_bytes limits (codes "h") none true (headers (number "7"))
      (headers (number "8")) refl
