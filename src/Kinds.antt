-- ===== src/Kinds.antt =====
-- packages/agent/src/grackle/kinds.py: the registries of node and edge kinds. A text is its code
-- points, which are ASCII in every name that is registered.
pub mod Registered
mod Tests
use grackle.Base.Ascii.{codes, lowercase, starts_with}
use grackle.Base.{
  ℕ, ◌==◌, leb, ◌&&◌, ◌||◌, String, Option, none, some, List, [], ◌∷◌, Bool, true, false,
  if◌then◌else◌, reverse,
}
use grackle.Base.Dict.{number_key, list_key, get, put}
use grackle.Base.Result.{Result, ok, raise, value_error, ◌>>=◌}

-- `str.isspace` of an ASCII character.
unfoldable pub is_blank : ℕ → Bool
is_blank c = c == 32 || (leb 9 c && leb c 13) || (leb 28 c && leb c 31)

unfoldable pub strip_front : List ℕ → List ℕ
unfolding is_blank
strip_front [] = []
strip_front (c ∷ s) = if is_blank c then strip_front s else c ∷ s

-- `name.strip().lower()`
unfoldable pub folded : List ℕ → List ℕ
unfolding strip_front lowercase
folded name = lowercase (reverse (strip_front (reverse (strip_front name))))

-- `_INVALID_NAME_CHARS`
unfoldable pub is_invalid : ℕ → Bool
is_invalid c = c == 0 || (leb 9 c && leb c 13)

unfoldable pub any_invalid : List ℕ → Bool
unfolding is_invalid
any_invalid [] = false
any_invalid (c ∷ s) = is_invalid c || any_invalid s

unfoldable pub valid_key : List ℕ → Result (List ℕ)
unfolding any_invalid
valid_key [] = raise value_error
valid_key (c ∷ s) = if any_invalid (c ∷ s) then raise value_error else ok (c ∷ s)

unfoldable pub canonical_name : List ℕ → Result (List ℕ)
unfolding folded valid_key
canonical_name name = valid_key (folded name)

-- The attributes of NodeKind and EdgeKind; look is the shape of a node, the style of an edge.
pub record Kind : Type 0 where
  pub name : List ℕ
  pub display_name : String
  pub color : List ℕ
  pub look : String

abbrev pub Registry : Type 0
Registry = List (List ℕ × Kind)

unfoldable pub has_key : List ℕ → Registry → Bool
unfolding get
has_key key kinds = elim (get key kinds) [ none ↦ false | some kind ↦ true ]

-- `register`
unfoldable pub register : Kind → Registry → Result Registry
unfolding canonical_name starts_with codes has_key put
register kind kinds = do
  key ← canonical_name kind.name
  if starts_with kind.color (codes "--color-")
      then (if has_key key kinds then raise value_error else ok (put key kind kinds))
      else raise value_error

-- `get`
unfoldable pub get_kind : List ℕ → Registry → Option Kind
unfolding get folded
get_kind name kinds = get (folded name) kinds

unfoldable pub register_all : List Kind → Registry → Result Registry
unfolding register
register_all [] kinds = ok kinds
register_all (kind ∷ rest) kinds = do kinds' ← register kind kinds; register_all rest kinds'

unfoldable pub kind_of : String → String → String → String → Kind
unfolding codes
kind_of name display_name color look = record {
  name = codes name;
  display_name = display_name;
  color = codes color;
  look = look;
}

-- The node kinds that the module registers.
unfoldable pub node_kinds : List Kind
unfolding kind_of
node_kinds =
    kind_of "file" "File" "--color-node-file" "rounded-square"
    ∷ kind_of "class" "Class" "--color-node-class" "circle"
    ∷ kind_of "function" "Function" "--color-node-function" "diamond"
    ∷ kind_of "method" "Method" "--color-node-method" "dot"
    ∷ kind_of "interface" "Interface" "--color-node-interface" "circle"
    ∷ kind_of "type_alias" "Type Alias" "--color-node-type_alias" "diamond"
    ∷ kind_of "enum" "Enum" "--color-node-enum" "dot"
    ∷ kind_of "struct" "Struct" "--color-node-struct" "rounded-square"
    ∷ []

unfoldable pub edge_kinds : List Kind
unfolding kind_of
edge_kinds =
    kind_of "import" "Import" "--color-edge-import" "dashed"
    ∷ kind_of "call" "Call" "--color-edge-call" "solid"
    ∷ kind_of "inherit" "Inherit" "--color-edge-inherit" "double"
    ∷ kind_of "implements" "Implements" "--color-edge-implements" "double"
    ∷ kind_of "cross_language_call" "HTTP Call" "--color-edge-cross-lang-call" "dashed"
    ∷ kind_of "cross_language_spawn" "Subprocess" "--color-edge-cross-lang-spawn" "dotted"
    ∷ []
