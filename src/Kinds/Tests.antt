-- ===== src/Kinds/Tests.antt =====
-- packages/agent/src/grackle/kinds.py: the kinds that the module registers, and the theorem on one more.
use grackle.Base.{ℕ, some, List, [], ite, refl, ◌≡◌, ◌⊎◌, length}
use grackle.Base.Dict.{number_key, list_same}
use native.Mathlib.Decide.{ℕ_discrete}
use grackle.Base.Result.{ok, raise, value_error, ◌>>=◌}
use grackle.Kinds.{
  edge_kinds, folded, get_kind, Kind, kind_of, node_kinds, register, register_all, Registry,
}
use grackle.Kinds.Registered.{Accepted, register-Accepted_iff}

abbrev service : Kind
service = kind_of " Service" "Service" "--color-node-service" "dot"

-- All kinds of the module are accepted.
all_nodes : (register_all node_kinds [] >>= λ kinds. ok (length kinds)) ≡ ok 8
unfolding register_all node_kinds list_same ℕ_discrete
all_nodes = refl

all_edges : (register_all edge_kinds [] >>= λ kinds. ok (length kinds)) ≡ ok 6
unfolding register_all edge_kinds list_same ℕ_discrete
all_edges = refl

register-Accepted_iff_example :
    (Accepted service []
      × ((kinds' : Registry) × (register service [] ≡ ok kinds')
          × ((name : List ℕ)
              → get_kind name kinds'
                ≡ ite
                    (list_same (folded service.name) (folded name))
                    (some service)
                    (get_kind name []))))
    ⊎ ((register service [] ≡ raise value_error) × (Accepted service [] → ⊥))
register-Accepted_iff_example = register-Accepted_iff service []
