-- ===== src/Server/Echo.antt =====
-- The replies of packages/agent/src/grackle/server.py carry the id of their request.
use grackle.Base.{◌≤◌, String, List, Option, none, some, ◌≡◌, All, length, ◌⊎◌}
use grackle.Base.Text.{string_key}
use grackle.Base.Result.{Result, ok, raise}
use grackle.Json.{Json, obj, field_get, as_text}
use grackle.Jsonl
use grackle.Aggregates.Query

-- The id of a reply.
abbrev pub id_of : Json → Option String
id_of (obj fs) = as_text (field_get "id" fs)
id_of v = none

-- The types of the requests whose handling can raise.
abbrev pub CanRaise : String → Type 0
CanRaise t = (t ≡ "read_source") ⊎ (t ≡ "trace_seek_request")

-- At most one reply, with the id of the request; where the handling raises, P holds.
abbrev pub Echoes : Type 0 → String → Result (List Json) → Type 0
Echoes P id (ok replies) = All (λ r. id_of r ≡ some id) replies × (length replies ≤ 1)
Echoes P id (raise e) = P

abbrev OneEchoes : String → Result Json → Type 0
OneEchoes id (ok r) = id_of r ≡ some id
OneEchoes id (raise e) = Unit
