-- ===== src/Json.antt =====
-- The values that json.loads returns, as the code of packages/agent/src/grackle looks at them.
use grackle.Base.{String, Option, none, some, Bool, ite, ◌≡◌, refl, arith}
use grackle.Base.Int.{ℤ}
use grackle.Base.Text.{String_discrete}

-- A float enters by what the code asks of it: whether math.isfinite, whether it is whole, and what
-- int() makes of it.
pub data Float : Type 0 where
  finite : Bool → ℤ → Float
  infinite nan : Float

mutual
  pub data Json : Type 0 where
    null : Json
    bool : Bool → Json
    int : ℤ → Json
    float : Float → Json
    str : String → Json
    arr : Items → Json
    obj : Fields → Json

  pub data Items : Type 0 where
    nil : Items
    cons : Json → Items → Items

  pub data Fields : Type 0 where
    end : Fields
    field : String → Json → Fields → Fields

-- `d.get(key)` of a dict with distinct keys.
unfoldable pub field_get : String → Fields → Option Json
unfolding String_discrete
field_get key end = none
field_get key (field k v rest) = ite (String_discrete k key) (some v) (field_get key rest)

-- `d.get(key, default)`
unfoldable pub field_or : String → Json → Fields → Json
unfolding field_get
field_or key default fs = elim (field_get key fs) [ none ↦ default | some v ↦ v ]

-- A value that is a str, and one that is a dict.
unfoldable pub as_text : Option Json → Option String
as_text (some (str t)) = some t
as_text _ = none

unfoldable pub as_dict : Option Json → Option Fields
as_dict (some (obj fs)) = some fs
as_dict _ = none

-- `d[key] = v`
unfoldable pub field_put : String → Json → Fields → Fields
unfolding String_discrete
field_put key v end = field key v end
field_put key v (field k w rest) =
    ite (String_discrete k key) (field k v rest) (field k w (field_put key v rest))

-- `d.pop(key, None)`, less what it returns.
unfoldable pub field_pop : String → Fields → Fields
unfolding String_discrete
field_pop key end = end
field_pop key (field k v rest) =
    ite (String_discrete k key) (field_pop key rest) (field k v (field_pop key rest))

pub field_get-field_put :
    (key j : String) (v : Json) (fs : Fields)
    → field_get j (field_put key v fs) ≡ ite (String_discrete key j) (some v) (field_get j fs)
unfolding field_get field_put
field_get-field_put key j v end = refl
field_get-field_put key j v (field k w rest) = ground (arith, field_get-field_put key j v rest)

pub field_get-field_pop :
    (key j : String) (fs : Fields)
    → field_get j (field_pop key fs) ≡ ite (String_discrete key j) none (field_get j fs)
unfolding field_get field_pop
field_get-field_pop key j end = ground arith
field_get-field_pop key j (field k w rest) = ground (arith, field_get-field_pop key j rest)
