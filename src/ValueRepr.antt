-- ===== src/ValueRepr.antt =====
-- packages/agent/src/grackle/python_runtime/value_repr.py: the texts of captured values. A text is
-- its code points.
pub mod Formatter
pub mod Leaves
pub mod Format
pub mod Full
pub mod Exact
pub mod Safe
pub mod Redacted
pub mod Redact
mod Tests
use grackle.Base.{
  ℕ, ◌-◌, ◌/◌, List, [], ◌∷◌, ◌++◌, Option, some, Bool, true, false, leb, ◌||◌, if◌then◌else◌,
  length, take, drop,
}
use grackle.Base.Ascii.{codes, lowercase, contains, replace}

-- SENSITIVE_NAME_PARTS
abbrev sensitive_name_parts : List (List ℕ)
sensitive_name_parts =
    codes "password"
    ∷ codes "passwd"
    ∷ codes "secret"
    ∷ codes "token"
    ∷ codes "credential"
    ∷ codes "api_key"
    ∷ codes "apikey"
    ∷ codes "private_key"
    ∷ codes "secret_key"
    ∷ codes "access_key"
    ∷ codes "signing_key"
    ∷ codes "authorization"
    ∷ codes "auth_token"
    ∷ codes "bearer"
    ∷ []

unfoldable pub contains_any : List ℕ → List (List ℕ) → Bool
unfolding contains
contains_any s [] = false
contains_any s (p ∷ ps) = contains s p || contains_any s ps

unfoldable pub is_sensitive_name : List ℕ → Bool
unfolding contains_any lowercase replace codes
is_sensitive_name name = contains_any (replace 45 95 (lowercase name)) sensitive_name_parts

pub record ValueCaptureLimits : Type 0 where
  pub max_len : ℕ
  pub max_items : ℕ
  pub max_depth : ℕ

-- The attributes of a class that the formatter reads.
pub record TypeName : Type 0 where
  pub module_name : List ℕ
  pub qualname : List ℕ
  pub name : List ℕ

-- What reading `shape` and `dtype` gives: the texts of tuple(shape) and of dtype.
pub data Attributes : Type 0 where
  no_shape failing : Attributes
  shaped : List ℕ → List ℕ → Attributes

pub data Lazy : Type 0 where
  coroutine async_generator generator : Lazy

pub data Span : Type 0 where
  range slice : Span

pub data Bytes : Type 0 where
  bytes bytearray : Bytes

-- A captured value as the formatter sees it, by the first rung that takes it. An object that is a
-- str without being of the class str holds its text.
mutual
  pub data Value : Type 0 where
    lazy : Lazy → Value
    iterator : Value
    boolean : Bool → Value
    nothing : Value
    -- repr(x)
    integer scalar : List ℕ → Value
    -- An integer of so many bits, of which repr raises ValueError.
    huge_integer : ℕ → Value
    span : Span → Value → Value → Value → Value
    text : List ℕ → Value
    binary : Bytes → List ℕ → Value
    -- repr(x.format) and repr(x.shape), none where reading them raises.
    memoryview : Option (List ℕ × List ℕ) → Value
    list tuple set frozenset : Items → Value
    dict : Entries → Value
    dataclass : TypeName → Fields → Value
    -- dataclasses.fields raises.
    odd_dataclass : TypeName → Value
    -- `_name_`, none where reading it raises, and the text of an enumeration of texts.
    member : TypeName → Option (List ℕ) → Option (List ℕ) → Value
    other : TypeName → Attributes → Option (List ℕ) → Value

  pub data Items : Type 0 where
    nil : Items
    cons : Value → Items → Items

  pub data Entries : Type 0 where
    no_entry : Entries
    entry : Value → Value → Entries → Entries

  pub data Fields : Type 0 where
    no_field : Fields
    field : List ℕ → Value → Fields → Fields
    unreadable : List ℕ → Fields → Fields

-- `t in _RECURSIVE_DISPATCH_TYPES`, or the class is a dataclass.
unfoldable pub is_recursive : Value → Bool
is_recursive (span k a b c) = true
is_recursive (list xs) = true
is_recursive (tuple xs) = true
is_recursive (set xs) = true
is_recursive (frozenset xs) = true
is_recursive (dict es) = true
is_recursive (dataclass t fs) = true
is_recursive (odd_dataclass t) = true
is_recursive x = false

-- `isinstance(key, str) and is_sensitive_name(key)`
unfoldable pub is_sensitive_key : Value → Bool
is_sensitive_key (text s) = is_sensitive_name s
is_sensitive_key (member t n (some s)) = is_sensitive_name s
is_sensitive_key (other t a (some s)) = is_sensitive_name s
is_sensitive_key x = false

abbrev pub ellipsis : List ℕ
ellipsis = codes "..."

-- `_clamp_middle`
unfoldable pub clamp_middle : List ℕ → ℕ → List ℕ × Bool
unfolding codes
clamp_middle s limit =
    let i = (limit - 3) / 2 in
    let j = limit - 3 - i in
    if leb (length s) limit
    then (s, false)
    else (take i s ++ (ellipsis ++ drop (length s - j) s), true)

-- The text, and whether anything was left out of it.
pub record ReprResult : Type 0 where
  pub text : List ℕ
  pub truncated : Bool

-- A key that is left out counts as false.
pub record ArgValue : Type 0 where
  pub name : List ℕ
  pub repr : List ℕ
  pub redacted : Bool
  pub truncated : Bool
