-- ===== src/ValueRepr/Formatter.antt =====
-- packages/agent/src/grackle/python_runtime/value_repr.py: the state of _SafeRepr, and
-- its handlers of collections over the texts of their items.
use grackle.Base.{
  ℕ, zero, suc, ◌-◌, List, [], ◌∷◌, ◌++◌, Bool, true, ltb, leb, ◌==◌, ◌&&◌, ◌||◌, if◌then◌else◌,
  length,
}
use grackle.Base.Ascii.{codes, join}
use grackle.ValueRepr.{Value, is_recursive, ellipsis}

-- The state of a formatter. What is charged beyond the budget leaves 0.
pub record Formatter : Type 0 where
  pub chars_remaining : ℕ
  pub truncated : Bool

abbrev pub Printed : Type 0
Printed = List ℕ × Formatter

abbrev pub Pieces : Type 0
Pieces = List (List ℕ) × Formatter

abbrev pub truncate : Formatter → Formatter
truncate f = record f { truncated = true }

abbrev pub truncate_if : Bool → Formatter → Formatter
truncate_if b f = record f { truncated = b || f.truncated }

-- `self._chars_remaining -= len(result)`, of a leaf.
unfoldable pub charge : Value → Printed → Printed
unfolding is_recursive
charge x (s, f) =
    if is_recursive x
    then (s, f)
    else (s, record f { chars_remaining = f.chars_remaining - length s })

-- `repr1`, over the dispatch of the value.
unfoldable pub budgeted : Value → (Formatter → Printed) → Formatter → Printed
unfolding charge codes
budgeted x dispatch f = elim f.chars_remaining [
  | zero ↦ (ellipsis, truncate f)
  | suc n ↦ charge x (dispatch f)
]

unfoldable pub comma_joined : List (List ℕ) → List ℕ
unfolding join codes
comma_joined pieces = join (codes ", ") pieces

-- Pieces between brackets, of a collection of n items of which at most most are shown.
unfoldable pub bracketed : ℕ → ℕ → List ℕ → List ℕ → Pieces → Printed
unfolding comma_joined codes
bracketed n most left right (pieces, f) =
    if ltb most n
    then (left ++ (comma_joined (pieces ++ ellipsis ∷ []) ++ right), truncate f)
    else (left ++ (comma_joined pieces ++ right), f)

-- `_repr_iterable_safe`, over the texts of the items at a level.
unfoldable pub repr_iterable :
    ℕ → ℕ → List ℕ → List ℕ → List ℕ → ℕ → (ℕ → Formatter → Pieces) → Formatter → Printed
unfolding bracketed codes
repr_iterable n most left right trail level items f =
    if leb level 0 && ltb 0 n
    then (left ++ (ellipsis ++ right), truncate f)
    else bracketed n most left (if n == 1 then trail ++ right else right) (items (level - 1) f)

-- `_repr_set_safe`
unfoldable pub repr_set :
    ℕ → ℕ → List ℕ → List ℕ → List ℕ → ℕ → (ℕ → Formatter → Pieces) → Formatter → Printed
unfolding bracketed codes
repr_set n most empty left right level items f =
    if n == 0
    then (empty, f)
    else if leb level 0
    then (left ++ (ellipsis ++ right), truncate f)
    else bracketed n most left right (items (level - 1) f)

-- `_repr_dict_safe`, over the texts of its entries at a level.
unfoldable pub repr_dict : ℕ → ℕ → (ℕ → Formatter → Pieces) → Formatter → Printed
unfolding comma_joined codes
repr_dict n level entries f =
    if n == 0
    then (codes "{}", f)
    else if leb level 0
    then (codes "{...}", truncate f)
    else let (pieces, f') = entries (level - 1) f in
      (codes "{" ++ (comma_joined pieces ++ codes "}"), f')

-- `_repr_dataclass_safe`, over the texts of its fields at a level.
unfoldable pub repr_dataclass : List ℕ → ℕ → (ℕ → Formatter → Pieces) → Formatter → Printed
unfolding comma_joined codes
repr_dataclass name level fields f =
    if leb level 0
    then (name ++ codes "(...)", truncate f)
    else let (pieces, f') = fields (level - 1) f in
      (name ++ (codes "(" ++ (comma_joined pieces ++ codes ")")), f')
