-- ===== src/Kinds/Registered.antt =====
-- What a registration changes, and when it is refused.
use grackle.Base.{
  true, ℕ, some, List, [], ◌∷◌, false, sym, refl, ◌∙◌, subst, ite, ◌≡◌, Bool-cases, ◌⊎◌, inl, inr,
}
use grackle.Base.Dict.{number_key, list_key, list_same, put, get-put}
use grackle.Base.Result.{Exception, Result, ok, raise, value_error}
use grackle.Kinds.{
  codes, starts_with, any_invalid, canonical_name, folded, get_kind, has_key, Kind, register,
  Registry, valid_key,
}

-- A registration is accepted where the name is canonical, the colour is a custom property of the
-- right prefix, and no kind has the canonical name yet.
abbrev pub Accepted : Kind → Registry → Type 0
Accepted kind kinds =
    (canonical_name kind.name ≡ ok (folded kind.name))
    × (starts_with kind.color (codes "--color-") ≡ true)
    × (has_key (folded kind.name) kinds ≡ false)

register-Accepted :
    (kind : Kind) (kinds : Registry)
    → Accepted kind kinds
    → register kind kinds ≡ ok (put (folded kind.name) kind kinds)
unfolding register
register-Accepted kind kinds (name, color, free) = rw (name, color, free, register) refl

abbrev Raised : Result Registry → Type 0
Raised (ok kinds) = ⊥
Raised (raise e) = Unit

raise-ok : (e : Exception) (kinds : Registry) → raise e ≡ ok kinds → ⊥
raise-ok e kinds h = subst Raised h tt

valid_key-cases : (key : List ℕ) → (valid_key key ≡ ok key) ⊎ (valid_key key ≡ raise value_error)
unfolding valid_key
valid_key-cases [] = inr refl
valid_key-cases (c ∷ s) = elim (Bool-cases (any_invalid (c ∷ s))) [
  | inl e ↦ inr (rw (e, valid_key) refl)
  | inr e ↦ inl (rw (e, valid_key) refl)
]

canonical_name-cases :
    (name : List ℕ)
    → (canonical_name name ≡ ok (folded name)) ⊎ (canonical_name name ≡ raise value_error)
unfolding canonical_name
canonical_name-cases name = valid_key-cases (folded name)

-- A registration is accepted, or it raises ValueError.
register-cases :
    (kind : Kind) (kinds : Registry)
    → Accepted kind kinds ⊎ (register kind kinds ≡ raise value_error)
unfolding register
register-cases kind kinds = elim (canonical_name-cases kind.name) [
  | inr e ↦ inr (rw (e, register) refl)
  | inl e ↦ elim (Bool-cases (starts_with kind.color (codes "--color-"))) [
    | inr c ↦ inr (rw (e, c, register) refl)
    | inl c ↦ elim (Bool-cases (has_key (folded kind.name) kinds)) [
      | inl h ↦ inr (rw (e, c, h, register) refl)
      | inr h ↦ inl (e, c, h)
    ]
  ]
]

-- A registration that returns was acceptable: its name was canonical and not taken, and its colour
-- a custom property. It adds exactly its kind: a lookup by any spelling of the name finds it, and
-- every other lookup finds what it found before. Any other registration raises ValueError.
pub register-Accepted_iff :
    (kind : Kind) (kinds : Registry)
    → (Accepted kind kinds
        × ((kinds' : Registry) × (register kind kinds ≡ ok kinds')
            × ((name : List ℕ)
                → get_kind name kinds'
                  ≡ ite
                      (list_same (folded kind.name) (folded name))
                      (some kind)
                      (get_kind name kinds))))
      ⊎ ((register kind kinds ≡ raise value_error) × (Accepted kind kinds → ⊥))
unfolding get_kind
register-Accepted_iff kind kinds = elim (register-cases kind kinds) [
  | inl a ↦ inl (
    a,
    (
      put (folded kind.name) kind kinds,
      register-Accepted kind kinds a,
      λ name. get-put (folded kind.name) (folded name) kind kinds,
    ),
  )
  | inr e ↦ inr (
    e,
    λ a.
        raise-ok value_error (put (folded kind.name) kind kinds)
          (sym e ∙ register-Accepted kind kinds a),
  )
]
